-- ===== src/Http/Response/Tests.antt =====
-- Responses built and typed, and the theorems at concrete inputs.
use nx_lite.Base.{◌≡◌, refl, codes, strrchr, strcasecmp_eq}
use nx_lite.Http.Parse.{Header}
use nx_lite.Http.Response.{http_get_mime_type}

abbrev content_type : Header
content_type = record { name = codes "Content-Type"; value = codes "text/css" }

abbrev accepts_deflate : Header
accepts_deflate = record { name = codes "accept-encoding"; value = codes "deflate, br" }

mime_type_of_upper_case : http_get_mime_type (codes "/A.CSS") ≡ codes "text/css"
unfolding http_get_mime_type strrchr strcasecmp_eq
mime_type_of_upper_case = refl
