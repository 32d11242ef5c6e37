-- ===== src/Headers.antt =====
-- include/beauty/header.hpp: the content types, and those of the extensions of files.
use beauty_cl.Prelude.{List, [], ◌∷◌, Bytes, codes}

abbrev pub application_json : Bytes
application_json = codes "application/json"

abbrev pub application_pdf : Bytes
application_pdf = codes "application/pdf"

abbrev pub image_gif : Bytes
image_gif = codes "image/gif"

abbrev pub image_jpeg : Bytes
image_jpeg = codes "image/jpeg"

abbrev pub image_png : Bytes
image_png = codes "image/png"

abbrev pub image_x_icon : Bytes
image_x_icon = codes "image/x-icon"

abbrev pub text_css : Bytes
text_css = codes "text/css"

abbrev pub text_html : Bytes
text_html = codes "text/html"

abbrev pub text_javascript : Bytes
text_javascript = codes "text/javascript"

abbrev pub text_plain : Bytes
text_plain = codes "text/plain"

abbrev pub unknown : Bytes
unknown = codes "application/octet-stream"

-- The entries of the map.
abbrev pub types : List (Bytes × Bytes)
types =
    (codes ".css", text_css)
    ∷ (codes ".gif", image_gif)
    ∷ (codes ".htm", text_html)
    ∷ (codes ".html", text_html)
    ∷ (codes ".ico", image_x_icon)
    ∷ (codes ".jpeg", image_jpeg)
    ∷ (codes ".jpg", image_jpeg)
    ∷ (codes ".js", text_javascript)
    ∷ (codes ".json", application_json)
    ∷ (codes ".pdf", application_pdf)
    ∷ (codes ".png", image_png)
    ∷ (codes ".txt", text_plain)
    ∷ []
