-- ===== src/Tests/Files.antt =====
-- The UI handler on two file systems that differ outside their root.
use mathlib.Core.Path.{subst}
use async_job_poc.Base.{◌≡◌, refl, [], Bool, true, false, inl, inr, Bool-cases, ◌∷◌, if◌then◌else◌}
use async_job_poc.Text.{Text, bytes, text_eq}
use async_job_poc.Text.Equality.{text_eq_iff}
use async_job_poc.Errors.{Result, ok, err, foreign}
use async_job_poc.Http.Response.{Writer, new_writer, plain}
use async_job_poc.Http.Ui.{Files, is_file, clean, serve_http, split_from}
use async_job_poc.Http.Ui.Paths.{IsInside, Agree, file_of, serve_http-Agree}

-- A file is served by writing its path.
abbrev serve : Text → Writer → Writer
serve path writer = record writer { body = plain path ∷ writer.body }

abbrev stat : Text → Result Bool
stat path = if text_eq path (bytes "app.js") then ok false else err (foreign (bytes "no such file"))

abbrev secret : Text
secret = bytes "../etc/passwd"

abbrev others : Text → Result Bool
others path = if text_eq path secret then ok false else stat path

secret-not-IsInside : ¬ IsInside secret
unfolding split_from
secret-not-IsInside h = h.0.2 refl

agree : (path : Text) → IsInside path → stat path ≡ others path
agree path h = elim (Bool-cases (text_eq path secret)) [
  | inl e ↦ absurd (secret-not-IsInside (subst IsInside ((text_eq_iff path secret).0 e) h))
  | inr e ↦ rw e refl
]

abbrev files : Files
files = record { stat = stat; serve = serve }

-- What it serves differs where a path stands for no file of the first.
abbrev other_files : Files
other_files = record {
  stat = others;
  serve = λ path writer.
      if text_eq path (bytes "/passwd")
      then record writer { body = plain [] ∷ writer.body }
      else serve path writer;
}

not_app :
    (path : Text) → text_eq path (bytes "/passwd") ≡ true → is_file (stat (file_of path)) ≡ true → ⊥
unfolding clean text_eq
not_app path e f =
    no_such
      (subst (λ x. is_file (stat (file_of x)) ≡ true) ((text_eq_iff path (bytes "/passwd")).0 e) f)
  where
    no_such : is_file (stat (bytes "passwd")) ≡ true → ⊥
    no_such h = cc

root_same :
    (writer : Writer) → files.serve (bytes "/") writer ≡ other_files.serve (bytes "/") writer
unfolding text_eq
root_same writer = refl

files-Agree : Agree files other_files
files-Agree = record {
  stat_same = agree;
  index_same = root_same;
  file_same = λ path writer h f. elim (Bool-cases (text_eq path (bytes "/passwd"))) [
    | inl e ↦ absurd (not_app path e f)
    | inr e ↦ rw e refl
  ];
}

serve_http-Agree_example :
    serve_http files (bytes "/../etc/passwd") new_writer
    ≡ serve_http other_files (bytes "/../etc/passwd") new_writer
serve_http-Agree_example =
    serve_http-Agree files other_files files-Agree (bytes "../etc/passwd") new_writer
