-- ===== src/Waf/Builtin.antt =====
-- The built-in rules: `sqlInjectionRules` and `xssRules` of internal/waf/rules.go.
use flow_proxy.Prelude.{List, [], ◌∷◌}
use flow_proxy.Waf.{RuleText, uri_rule}

unfoldable pub sql_injection_rules : List RuleText
sql_injection_rules =
    uri_rule "sqli-001" "SQL Injection - UNION SELECT" "sql_injection" "high"
      "(?i)(\\bUNION\\b[^\\w]+.*\\bSELECT\\b)"
    ∷ uri_rule "sqli-002" "SQL Injection - OR/AND with comments" "sql_injection" "high"
        "(?i)(\\bOR\\b|\\bAND\\b)\\s+['\\\"]?\\w+['\"]?\\s*[=<>!]+\\s*['\\\"]?\\w*['\"]?\\s*(--|#|/\\*)"
    ∷ uri_rule "sqli-003" "SQL Injection - sleep/pause/benchmark" "sql_injection" "high"
        "(?i)(\\bSLEEP\\b|\\bWAITFOR\\b|\\bBENCHMARK\\b)\\s*\\("
    ∷ uri_rule "sqli-004" "SQL Injection - information_schema access" "sql_injection" "high"
        "(?i)(\\bINFORMATION_SCHEMA\\b|\\bMYSQL\\.\\w+\\b|\\bPG_CATALOG\\b|\\bSYSCAT\\b)"
    ∷ uri_rule "sqli-005" "SQL Injection - exec/xp_cmdshell/xp_regread" "sql_injection" "critical"
        "(?i)(\\bEXEC\\b|\\bEXECUTE\\b)[\\s(]+.*\\b(xp_cmdshell|xp_regread|xp_regwrite|sp_configure)\\b"
    ∷ uri_rule "sqli-006" "SQL Injection - inline comments bypass" "sql_injection" "medium"
        "(?i)(['\\\"])\\s*(OR|AND)\\s*\\1\\s*[=<>]"
    ∷ uri_rule "sqli-007" "SQL Injection - hex/char based injection" "sql_injection" "medium"
        "(?i)(\\b(0x[0-9a-f]{2,})\\b|\\bCHAR\\s*\\(\\d+\\)|\\bNCHAR\\s*\\(\\d+\\)|\\bUNICODE\\s*\\(\\d+\\))"
    ∷ uri_rule "sqli-008" "SQL Injection - into outfile/dumpfile" "sql_injection" "critical"
        "(?i)(\\bINTO\\s+(OUT|DUMP)FILE\\b)"
    ∷ uri_rule "sqli-009" "SQL Injection - stacked queries" "sql_injection" "high"
        "['\\\"];\\s*(DROP|DELETE|INSERT|UPDATE|CREATE|ALTER|TRUNCATE)\\b"
    ∷ uri_rule "sqli-010" "SQL Injection - LOAD_FILE" "sql_injection" "high"
        "(?i)(\\bLOAD_FILE\\b\\s*\\()"
    ∷ uri_rule "sqli-011" "SQL Injection - conditional errors" "sql_injection" "medium"
        "(?i)(\\bIF\\b\\s*\\(.*?,\\s*(?:SELECT|SLEEP|BENCHMARK)\\b)"
    ∷ []

unfoldable pub xss_rules : List RuleText
xss_rules =
    uri_rule "xss-001" "XSS - script tag" "xss" "high" "(?i)<script[\\s>/]"
    ∷ uri_rule "xss-002" "XSS - event handlers" "xss" "high"
        "(?i)\\bon\\w+\\s*=\\s*['\\\"]?[^'\\\"\\s>]*[('\\\"]"
    ∷ uri_rule "xss-003" "XSS - javascript: URI" "xss" "high"
        "(?i)(javascript|vbscript|data):\\s*\\w"
    ∷ uri_rule "xss-004" "XSS - eval/setTimeout/setInterval/Function" "xss" "high"
        "(?i)(\\beval\\b|\\bsetTimeout\\b|\\bsetInterval\\b|\\bnew\\s+Function\\b)\\s*\\("
    ∷ uri_rule "xss-005" "XSS - document.cookie/document.write/location" "xss" "medium"
        "(?i)(document\\.(cookie|write|writeln|location|domain)|window\\.location)\\s*[=:(\\[]"
    ∷ uri_rule "xss-006" "XSS - HTML encoding bypass attempts" "xss" "medium"
        "(?i)(&lt;|&#x?[0-9a-f]{2,4};)\\s*(script|iframe|img|body|div)\\b"
    ∷ uri_rule "xss-007" "XSS - SVG/iframe/embed/object" "xss" "high"
        "(?i)<(iframe|embed|object|svg|math|meta|link|style)[\\s>/]"
    ∷ uri_rule "xss-008" "XSS - CSS expression injection" "xss" "medium"
        "(?i)(expression\\s*\\(|url\\s*\\(['\\\"]?\\s*javascript:)"
    ∷ uri_rule "xss-009" "XSS - onerror/onload/onfocus in attributes" "xss" "medium"
        "(?i)(\\bonerror\\b|\\bonload\\b|\\bonfocus\\b|\\bonblur\\b|\\bonsubmit\\b|\\bonchange\\b)\\s*=\\s*['\\\"]?[^'\\\"\\s>]"
    ∷ uri_rule "xss-010" "XSS - Angular template injection" "xss" "medium" "\\{\\{.*?\\}\\}"
    ∷ uri_rule "xss-011" "XSS - import/referrer policy bypass" "xss" "low"
        "(?i)(<import\\b|<link\\b[^>]*rel=['\\\"]?import['\\\"]?)"
    ∷ uri_rule "xss-012" "XSS - polyglot/inline event with auto-focus" "xss" "high"
        "(?i)(\\bautofocus\\b|\\bautofocus\\s*=\\s*['\\\"]?autofocus['\\\"]?).*?\\bon\\w+\\s*="
    ∷ []
