-- ===== src/Http/Ui/Paths.antt =====
-- Which paths of the file system the UI handler asks for.
use async_job_poc.Base.{
  ℕ, ◌≡◌, ◌≢◌, refl, sym, ap, ◌∙◌, ◌⊎◌, inl, inr, true, false, ◌||◌, ◌==◌, Bool-cases, List, [],
  ◌∷◌, ◌++◌, reverse, length, All, All-reverse, All-map, arith,
}
use mathlib.Core.List.{reverse-cons, reverse-reverse, append_assoc, append-nil}
use async_job_poc.Text.{Text, bytes, text_eq}
use async_job_poc.Text.Equality.{text_eq_iff}
use async_job_poc.Http.Response.{Writer}
use async_job_poc.Http.Ui.{
  Files, split_from, clean_element, clean_parts, join_parts, clean, without_slash, is_file,
  serve_path, serve_http, serve_index, set_ui_security_headers,
}

-- A byte that does not end an element.
abbrev InElement : ℕ → Type 0
InElement c = (c == b'/') ≡ false

-- An element that fs.ValidPath accepts.
abbrev pub IsElement : Text → Type 0
IsElement e = (e ≢ []) × (e ≢ bytes ".") × (e ≢ bytes "..")

abbrev Part : Text → Type 0
Part e = All InElement e × IsElement e

append_onto :
    (part e s : Text)
    → All InElement e
    → split_from part (e ++ s) ≡ split_from (reverse e ++ part) s
unfolding split_from
append_onto part [] s h = refl
append_onto part (c ∷ e) s (p, h) =
    let rest = append_onto (c ∷ part) e s h in rw (p, reverse-cons c e, append_assoc) rest

-- What is split has no slash in its parts.
split-InElement : (part s : Text) → All InElement part → All (All InElement) (split_from part s)
unfolding split_from
split-InElement part [] h = (All-reverse InElement part h, tt)
split-InElement part (c ∷ s) h = elim (Bool-cases (c == b'/')) [
  | inl e ↦ rw e (All-reverse InElement part h, split-InElement [] s tt)
  | inr e ↦ rw e (split-InElement (c ∷ part) s (e, h))
]

element :
    (part : Text)
    → (length part == 0 || text_eq part (bytes ".")) ≡ false
    → text_eq part (bytes "..") ≡ false
    → IsElement part
element part h k = (
  λ e. ground arith,
  λ e. ground (arith, text_eq_iff part (bytes ".")),
  λ e. ground (arith, text_eq_iff part (bytes "..")),
)

up : (last : Text) → Part last → text_eq last (bytes "..") ≡ false
up last (p, (e, d, u)) = elim (Bool-cases (text_eq last (bytes ".."))) [
  | inl t ↦ absurd (u ((text_eq_iff last (bytes "..")).0 t))
  | inr t ↦ t
]

-- One element of a rooted path.
clean_element-Part :
    (part : Text) (done : List Text)
    → All InElement part
    → All Part done
    → All Part (clean_element true part done)
unfolding clean_element
clean_element-Part part [] p h = elim (Bool-cases (length part == 0 || text_eq part (bytes "."))) [
  | inl e ↦ rw e tt
  | inr e ↦ elim (Bool-cases (text_eq part (bytes ".."))) [
    | inl d ↦ rw (e, d) tt
    | inr d ↦ rw (e, d) ((p, element part e d), tt)
  ]
]
clean_element-Part part (last ∷ done) p h =
    elim (Bool-cases (length part == 0 || text_eq part (bytes "."))) [
      | inl e ↦ rw e h
      | inr e ↦ elim (Bool-cases (text_eq part (bytes ".."))) [
        | inl d ↦ rw (e, d, up last h.0) h.1
        | inr d ↦ rw (e, d) ((p, element part e d), h)
      ]
    ]

clean_parts-Part :
    (parts done : List Text)
    → All (All InElement) parts
    → All Part done
    → All Part (clean_parts true parts done)
unfolding clean_parts
clean_parts-Part [] done p h = h
clean_parts-Part (part ∷ parts) done (p, ps) h =
    clean_parts-Part parts (clean_element true part done) ps (clean_element-Part part done p h)

back : (x : Text) → reverse (reverse x ++ []) ≡ x
back x = rw (append-nil, reverse-reverse)

-- Parts that are joined are split again.
split-join :
    (x : Text) (parts : List Text)
    → All (All InElement) (x ∷ parts)
    → split_from [] (join_parts (x ∷ parts)) ≡ x ∷ parts
unfolding split_from join_parts
split-join x [] (p, ps) =
    ap (split_from []) (sym (append-nil x)) ∙ append_onto [] x [] p ∙ ap (λ y. y ∷ []) (back x)
split-join x (y ∷ parts) (p, ps) =
    append_onto [] x (b'/' ∷ join_parts (y ∷ parts)) p ∙ (λ i. back x i ∷ split-join y parts ps i)

joined :
    (parts : List Text)
    → All Part parts
    → (join_parts parts ≡ []) ⊎ All IsElement (split_from [] (join_parts parts))
unfolding join_parts
joined [] h = inl refl
joined (x ∷ parts) h = inr (
    rw (split-join x parts (All-map (x ∷ parts) (λ e p. p.0) h))
      (All-map (x ∷ parts) (λ e p. p.1) h))

-- For a path that starts with a slash, the path that the UI handler looks up is empty, or none of its
-- elements is empty, `.` or `..`.
pub clean-IsElement :
    (s : Text)
    → (without_slash (clean (b'/' ∷ s)) ≡ [])
      ⊎ All IsElement (split_from [] (without_slash (clean (b'/' ∷ s))))
unfolding clean
clean-IsElement s =
    let done = clean_parts true (split_from [] s) [] in
    let parts : All Part (reverse done) =
      All-reverse Part done (clean_parts-Part (split_from [] s) [] (split-InElement [] s tt) tt) in
    joined (reverse done) parts

-- The elements of a path, split at its slashes, are such as fs.ValidPath accepts.
abbrev pub IsInside : Text → Type 0
IsInside path = All IsElement (split_from [] path)

-- The path under the root that stands for the path of a request.
abbrev pub file_of : Text → Text
file_of path = without_slash (clean path)

-- Two file systems with their file servers that agree below the root: on what fs.Stat says of a path
-- without empty elements, `.` and `..`, on the page of the root, and on a request whose path stands
-- for a regular file that is found by such a path.
pub record Agree (files others : Files) : Type 0 where
  pub stat_same : (path : Text) → IsInside path → files.stat path ≡ others.stat path
  pub index_same :
      (writer : Writer) → files.serve (bytes "/") writer ≡ others.serve (bytes "/") writer
  pub file_same :
      (path : Text) (writer : Writer)
      → IsInside (file_of path)
      → is_file (files.stat (file_of path)) ≡ true
      → files.serve path writer ≡ others.serve path writer

module _ (files others : Files) (agree : Agree files others) where
  serve_index-Agree : (writer : Writer) → serve_index files writer ≡ serve_index others writer
  unfolding serve_index
  serve_index-Agree writer = agree.index_same _

  serve_path-Agree :
      (path : Text) (writer : Writer)
      → ((file_of path ≡ []) ⊎ IsInside (file_of path))
      → serve_path files path (file_of path) writer ≡ serve_path others path (file_of path) writer
  unfolding serve_path text_eq
  serve_path-Agree path writer (inl e) = rw e (serve_index-Agree writer)
  serve_path-Agree path writer (inr h) =
      let same = agree.stat_same (file_of path) h in
      elim (Bool-cases (is_file (files.stat (file_of path)))) [
        | inl f ↦
            let served : (w : Writer) → files.serve path w ≡ others.serve path w =
              λ w. agree.file_same path w h f in
            rw (sym same, f, serve_index-Agree, served) refl
        | inr f ↦ rw (sym same, f, serve_index-Agree) refl
      ]

  -- For a path that starts with a slash, the UI handler answers the same on two file systems that
  -- agree on what fs.Stat says below the root, on the page of the root, and on the regular files
  -- below the root.
  pub serve_http-Agree :
      (s : Text) (writer : Writer)
      → serve_http files (b'/' ∷ s) writer ≡ serve_http others (b'/' ∷ s) writer
  unfolding serve_http
  serve_http-Agree s writer =
      serve_path-Agree (b'/' ∷ s) (set_ui_security_headers writer) (clean-IsElement s)
