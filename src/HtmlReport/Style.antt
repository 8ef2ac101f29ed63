-- ===== src/HtmlReport/Style.antt =====
-- The head of the page of generate_report.py, with its style sheet.
use my_besu_net.Base.{◌++◌}
use my_besu_net.Base.Text.{Text, codes}

unfoldable pub page_head : Text → Text → Text
page_head refresh_tag title_prefix =
    codes "<!DOCTYPE html>\n"
    ++ codes "<html>\n"
    ++ codes "<head>\n"
    ++ codes "    <meta charset=\"utf-8\">\n"
    ++ refresh_tag
    ++ codes "    <title>"
    ++ title_prefix
    ++ codes "Skill Description Optimization</title>\n"
    ++ codes "    <link rel=\"preconnect\" href=\"https://fonts.googleapis.com\">\n"
    ++ codes "    <link rel=\"preconnect\" href=\"https://fonts.gstatic.com\" crossorigin>\n"
    ++ codes
        "    <link href=\"https://fonts.googleapis.com/css2?family=Poppins:wght@500;600&family=Lora:wght@400;500&display=swap\" rel=\"stylesheet\">\n"
    ++ codes "    <style>\n"
    ++ codes "        body {\n"
    ++ codes "            font-family: 'Lora', Georgia, serif;\n"
    ++ codes "            max-width: 100%;\n"
    ++ codes "            margin: 0 auto;\n"
    ++ codes "            padding: 20px;\n"
    ++ codes "            background: #faf9f5;\n"
    ++ codes "            color: #141413;\n"
    ++ codes "        }\n"
    ++ codes "        h1 { font-family: 'Poppins', sans-serif; color: #141413; }\n"
    ++ codes "        .explainer {\n"
    ++ codes "            background: white;\n"
    ++ codes "            padding: 15px;\n"
    ++ codes "            border-radius: 6px;\n"
    ++ codes "            margin-bottom: 20px;\n"
    ++ codes "            border: 1px solid #e8e6dc;\n"
    ++ codes "            color: #b0aea5;\n"
    ++ codes "            font-size: 0.875rem;\n"
    ++ codes "            line-height: 1.6;\n"
    ++ codes "        }\n"
    ++ codes "        .summary {\n"
    ++ codes "            background: white;\n"
    ++ codes "            padding: 15px;\n"
    ++ codes "            border-radius: 6px;\n"
    ++ codes "            margin-bottom: 20px;\n"
    ++ codes "            border: 1px solid #e8e6dc;\n"
    ++ codes "        }\n"
    ++ codes "        .summary p { margin: 5px 0; }\n"
    ++ codes "        .best { color: #788c5d; font-weight: bold; }\n"
    ++ codes "        .table-container {\n"
    ++ codes "            overflow-x: auto;\n"
    ++ codes "            width: 100%;\n"
    ++ codes "        }\n"
    ++ codes "        table {\n"
    ++ codes "            border-collapse: collapse;\n"
    ++ codes "            background: white;\n"
    ++ codes "            border: 1px solid #e8e6dc;\n"
    ++ codes "            border-radius: 6px;\n"
    ++ codes "            font-size: 12px;\n"
    ++ codes "            min-width: 100%;\n"
    ++ codes "        }\n"
    ++ codes "        th, td {\n"
    ++ codes "            padding: 8px;\n"
    ++ codes "            text-align: left;\n"
    ++ codes "            border: 1px solid #e8e6dc;\n"
    ++ codes "            white-space: normal;\n"
    ++ codes "            word-wrap: break-word;\n"
    ++ codes "        }\n"
    ++ codes "        th {\n"
    ++ codes "            font-family: 'Poppins', sans-serif;\n"
    ++ codes "            background: #141413;\n"
    ++ codes "            color: #faf9f5;\n"
    ++ codes "            font-weight: 500;\n"
    ++ codes "        }\n"
    ++ codes "        th.test-col {\n"
    ++ codes "            background: #6a9bcc;\n"
    ++ codes "        }\n"
    ++ codes "        th.query-col { min-width: 200px; }\n"
    ++ codes "        td.description {\n"
    ++ codes "            font-family: monospace;\n"
    ++ codes "            font-size: 11px;\n"
    ++ codes "            word-wrap: break-word;\n"
    ++ codes "            max-width: 400px;\n"
    ++ codes "        }\n"
    ++ codes "        td.result {\n"
    ++ codes "            text-align: center;\n"
    ++ codes "            font-size: 16px;\n"
    ++ codes "            min-width: 40px;\n"
    ++ codes "        }\n"
    ++ codes "        td.test-result {\n"
    ++ codes "            background: #f0f6fc;\n"
    ++ codes "        }\n"
    ++ codes "        .pass { color: #788c5d; }\n"
    ++ codes "        .fail { color: #c44; }\n"
    ++ codes "        .rate {\n"
    ++ codes "            font-size: 9px;\n"
    ++ codes "            color: #b0aea5;\n"
    ++ codes "            display: block;\n"
    ++ codes "        }\n"
    ++ codes "        tr:hover { background: #faf9f5; }\n"
    ++ codes "        .score {\n"
    ++ codes "            display: inline-block;\n"
    ++ codes "            padding: 2px 6px;\n"
    ++ codes "            border-radius: 4px;\n"
    ++ codes "            font-weight: bold;\n"
    ++ codes "            font-size: 11px;\n"
    ++ codes "        }\n"
    ++ codes "        .score-good { background: #eef2e8; color: #788c5d; }\n"
    ++ codes "        .score-ok { background: #fef3c7; color: #d97706; }\n"
    ++ codes "        .score-bad { background: #fceaea; color: #c44; }\n"
    ++ codes "        .train-label { color: #b0aea5; font-size: 10px; }\n"
    ++ codes "        .test-label { color: #6a9bcc; font-size: 10px; font-weight: bold; }\n"
    ++ codes "        .best-row { background: #f5f8f2; }\n"
    ++ codes "        th.positive-col { border-bottom: 3px solid #788c5d; }\n"
    ++ codes "        th.negative-col { border-bottom: 3px solid #c44; }\n"
    ++ codes "        th.test-col.positive-col { border-bottom: 3px solid #788c5d; }\n"
    ++ codes "        th.test-col.negative-col { border-bottom: 3px solid #c44; }\n"
    ++ codes
        "        .legend { font-family: 'Poppins', sans-serif; display: flex; gap: 20px; margin-bottom: 10px; font-size: 13px; align-items: center; }\n"
    ++ codes "        .legend-item { display: flex; align-items: center; gap: 6px; }\n"
    ++ codes
        "        .legend-swatch { width: 16px; height: 16px; border-radius: 3px; display: inline-block; }\n"
    ++ codes "        .swatch-positive { background: #141413; border-bottom: 3px solid #788c5d; }\n"
    ++ codes "        .swatch-negative { background: #141413; border-bottom: 3px solid #c44; }\n"
    ++ codes "        .swatch-test { background: #6a9bcc; }\n"
    ++ codes "        .swatch-train { background: #141413; }\n"
    ++ codes "    </style>\n"
    ++ codes "</head>\n"
    ++ codes "<body>\n"
    ++ codes "    <h1>"
    ++ title_prefix
    ++ codes "Skill Description Optimization</h1>\n"
    ++ codes "    <div class=\"explainer\">\n"
    ++ codes
        "        <strong>Optimizing your skill's description.</strong> This page updates automatically as Claude tests different versions of your skill's description. Each row is an iteration — a new description attempt. The columns show test queries: green checkmarks mean the skill triggered correctly (or correctly didn't trigger), red crosses mean it got it wrong. The \"Train\" score shows performance on queries used to improve the description; the \"Test\" score shows performance on held-out queries the optimizer hasn't seen. When it's done, Claude will apply the best-performing description to your skill.\n"
    ++ codes "    </div>\n"
