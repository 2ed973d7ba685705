-- ===== src/Http/Ui.antt =====
-- internal/adapters/http/ui_handler.go. The file system and http.FileServer are parameters.
pub mod Paths
use async_job_poc.Base.{
  Bool, true, false, ◌&&◌, ◌||◌, Option, none, some, List, [], ◌∷◌, ◌++◌, reverse, length, ◌==◌,
  if◌then◌else◌,
}
use async_job_poc.Text.{Text, bytes, text_eq}
use async_job_poc.Errors.{Result, ok, err, foreign, text, wrapped}
use async_job_poc.Http.Response.{Writer, set_header, http_error}

-- strings.Split(s, "/"), with the part before the first slash given backwards.
unfoldable pub split_from : (part : Text) → Text → List Text
split_from part [] = reverse part ∷ []
split_from part (c ∷ s) =
    if c == b'/' then reverse part ∷ split_from [] s else split_from (c ∷ part) s

-- One element of a path that is cleaned, on those before it, the last one first: an empty element
-- and `.` are dropped, `..` takes the last one away, if there is one that is not `..` too.
pub clean_element : (rooted : Bool) → Text → List Text → List Text
clean_element rooted part [] =
    if length part == 0 || text_eq part (bytes ".")
    then []
    else if rooted && text_eq part (bytes "..")
    then []
    else part ∷ []
clean_element rooted part (last ∷ parts) =
    if length part == 0 || text_eq part (bytes ".")
    then last ∷ parts
    else if text_eq part (bytes "..")
    then (if text_eq last (bytes "..") then part ∷ last ∷ parts else parts)
    else part ∷ last ∷ parts

pub clean_parts : (rooted : Bool) → List Text → List Text → List Text
unfolding clean_element
clean_parts rooted [] done = done
clean_parts rooted (part ∷ parts) done = clean_parts rooted parts (clean_element rooted part done)

pub join_parts : List Text → Text
join_parts [] = []
join_parts (part ∷ []) = part
join_parts (part ∷ q ∷ parts) = part ++ b'/' ∷ join_parts (q ∷ parts)

abbrev is_rooted : Text → Bool
is_rooted [] = false
is_rooted (c ∷ s) = c == b'/'

abbrev or_dot : Text → Text
or_dot [] = bytes "."
or_dot (c ∷ s) = c ∷ s

-- path.Clean
unfoldable pub clean : Text → Text
unfolding split_from clean_parts join_parts
clean path =
    let cleaned = join_parts (reverse (clean_parts (is_rooted path) (split_from [] path) [])) in
    if is_rooted path then b'/' ∷ cleaned else or_dot cleaned

-- strings.HasPrefix
unfoldable pub has_prefix : Text → (start : Text) → Bool
has_prefix s [] = true
has_prefix [] (_ ∷ _) = false
has_prefix (c ∷ s) (d ∷ t) = c == d && has_prefix s t

-- strings.TrimPrefix(s, "/")
abbrev pub without_slash : Text → Text
without_slash [] = []
without_slash (c ∷ s) = if c == b'/' then s else c ∷ s

-- fs.Stat: whether the path is a directory; and http.FileServer, for the path of the request.
pub record Files : Type 0 where
  pub stat : Text → Result Bool
  pub serve : Text → Writer → Writer

abbrev pub is_file : Result Bool → Bool
is_file (ok true) = false
is_file (ok false) = true
is_file (err _) = false

abbrev pub index_file : Text
index_file = bytes "index.html"

-- NewUIHandler
unfoldable pub new_ui_handler : Option Files → Result Files
new_ui_handler none = err (foreign (bytes "UI filesystem must not be nil"))
new_ui_handler (some files) =
    elim (wrapped (text (bytes "find UI entrypoint: ") ∷ []) (files.stat index_file)) [
      | err e ↦ err e
      | ok _ ↦ ok files
    ]

-- setUISecurityHeaders
unfoldable pub set_ui_security_headers : Writer → Writer
set_ui_security_headers writer = set_header (bytes "X-Frame-Options") (bytes "DENY") (
    set_header (bytes "X-Content-Type-Options") (bytes "nosniff") (
      set_header (bytes "Referrer-Policy") (bytes "no-referrer") (
        set_header (bytes "Content-Security-Policy")
          (bytes
            "default-src 'self'; connect-src 'self'; img-src 'self' data:; style-src 'self'; script-src 'self'")
          writer)))

module _ (files : Files) where
  -- UIHandler.serveIndex
  unfoldable pub serve_index : Writer → Writer
  serve_index writer =
      files.serve (bytes "/") (set_header (bytes "Cache-Control") (bytes "no-cache") writer)

  -- The part of ServeHTTP after the path is cleaned.
  unfoldable pub serve_path : (path file_path : Text) → Writer → Writer
  serve_path path file_path writer =
      if text_eq file_path (bytes ".") || length file_path == 0
      then serve_index writer
      else if has_prefix file_path (bytes "api/") || has_prefix file_path (bytes "health/")
      then http_error (bytes "404 page not found") 404 writer
      else if is_file (files.stat file_path)
      then files.serve path (
          if has_prefix file_path (bytes "assets/")
          then set_header (bytes "Cache-Control") (bytes "public, max-age=31536000, immutable")
              writer
          else writer)
      else serve_index writer

  -- UIHandler.ServeHTTP, for the path of the URL.
  unfoldable pub serve_http : Text → Writer → Writer
  serve_http path writer =
      serve_path path (without_slash (clean path)) (set_ui_security_headers writer)
