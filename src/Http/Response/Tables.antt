-- ===== src/Http/Response/Tables.antt =====
-- The tables of src/piorun/http/httpresponse.cpp: the types of files, the texts of codes and the pages of
-- errors.
use piorun.Prelude.{ℕ, List, [], ◌∷◌, Option, none, some, ◌==◌, if◌then◌else◌}
use piorun.Http.CString.{codes}

abbrev pub suffix_type : List (List ℕ × List ℕ)
suffix_type =
    (codes ".html", codes "text/html")
    ∷ (codes ".xml", codes "text/xml")
    ∷ (codes ".xhtml", codes "application/xhtml+xml")
    ∷ (codes ".txt", codes "text/plain")
    ∷ (codes ".rtf", codes "application/rtf")
    ∷ (codes ".pdf", codes "application/pdf")
    ∷ (codes ".word", codes "application/nsword")
    ∷ (codes ".png", codes "image/png")
    ∷ (codes ".gif", codes "image/gif")
    ∷ (codes ".jpg", codes "image/jpeg")
    ∷ (codes ".jpeg", codes "image/jpeg")
    ∷ (codes ".au", codes "audio/basic")
    ∷ (codes ".mpeg", codes "video/mpeg")
    ∷ (codes ".mpg", codes "video/mpeg")
    ∷ (codes ".avi", codes "video/x-msvideo")
    ∷ (codes ".gz", codes "application/x-gzip")
    ∷ (codes ".tar", codes "application/x-tar")
    ∷ (codes ".css", codes "text/css ")
    ∷ (codes ".js", codes "text/javascript ")
    ∷ []

abbrev pub code_status : ℕ → Option (List ℕ)
code_status code =
    if code == 200
    then some (codes "OK")
    else if code == 400
    then some (codes "Bad Request")
    else if code == 403
    then some (codes "Forbidden")
    else if code == 404
    then some (codes "Not Found")
    else none

abbrev pub code_path : ℕ → Option (List ℕ)
code_path code =
    if code == 400
    then some (codes "/400.html")
    else if code == 403
    then some (codes "/403.html")
    else if code == 404
    then some (codes "/404.html")
    else none
