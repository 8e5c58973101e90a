-- ===== src/Http/Handle/Opened.antt =====
-- About the files that http_handle_request of src/http.c opens.
use nx_lite.Base.{
  ℕ, ◌≡◌, refl, sym, subst, ◌⊎◌, inl, inr, Bool, not, ◌||◌, Option, none, some, List, [], ◌∷◌,
  Bytes, codes, strcmp_eq, get_or, All, Bool-cases, Option-cases,
}
use nx_lite.Http.Parse.{Request}
use nx_lite.Http.Path.{path_max, validate_and_resolve_path}
use nx_lite.Http.Path.Containment.{IsWithin, resolved-IsWithin}
use nx_lite.Http.Response.{Response, http_create_response}
use nx_lite.Http.Cache.{Cache, zero_cache_entry, find_cached_response}
use nx_lite.Http.Etag.{EtagMatch, matched, unmatched, overrun, make_etag}
use nx_lite.Http.Serve.{Library, Serving, index_path, http_serve_file, serve_regular}
use nx_lite.Http.Handle.{
  check_etag, is_unmodified, answer_cached, serve_path, answer_file, answer_path, coding_for,
  request_path, Config, http_handle_request,
}

-- No file was opened, or the one of that path.
abbrev Opens : Bytes → Serving → Type 0
Opens path s = (s.opened ≡ []) ⊎ (s.opened ≡ index_path path ∷ [])

abbrev OpensIfSome : Bytes → Option Serving → Type 0
OpensIfSome path none = Unit
OpensIfSome path (some s) = Opens path s

EtagMatch-cases : (m : EtagMatch) → (m ≡ matched) ⊎ (m ≡ unmatched) ⊎ (m ≡ overrun)
EtagMatch-cases matched = inl refl
EtagMatch-cases unmatched = inr (inl refl)
EtagMatch-cases overrun = inr (inr refl)

http_serve_file-opened :
    (lib : Library) (path : Bytes) (r : Response) (q : Option Request) (c : Cache)
    → (http_serve_file lib path r q c).0.opened ≡ index_path path ∷ []
unfolding http_serve_file serve_regular
http_serve_file-opened lib path r q c = elim (Option-cases (lib.open_file (index_path path))) [
  | inl e ↦ simp (http_serve_file, e) refl
  | inr (fd, e) ↦ elim (Option-cases (lib.fstat (index_path path))) [
    | inl e1 ↦ simp (http_serve_file, e, e1) refl
    | inr (st, e1) ↦ elim (Bool-cases st.is_regular) [
      | inl regular ↦ simp (http_serve_file, e, e1, regular) refl
      | inr special ↦ simp (http_serve_file, e, e1, special) refl
    ]
  ]
]

serve_path-opened :
    (lib : Library) (timeout : ℕ) (is_head : Bool) (path : Bytes) (q : Request) (r : Response)
    (c : Cache)
    → (serve_path lib timeout is_head path q r c).opened ≡ index_path path ∷ []
unfolding serve_path
serve_path-opened lib timeout is_head path q r c =
    elim (Bool-cases
      (http_serve_file lib path (record r { compression_type = coding_for path q }) (some q) c).1) [
        | inl done ↦ simp (serve_path, done) (http_serve_file-opened lib path _ (some q) c)
        | inr failed ↦ simp (serve_path, failed) (http_serve_file-opened lib path _ (some q) c)
      ]

answer_file-OpensIfSome :
    (lib : Library) (timeout : ℕ) (is_head : Bool) (path : Bytes) (q : Request) (r : Response)
    (c : Cache)
    → OpensIfSome path (answer_file lib timeout is_head path q r c)
unfolding answer_file
answer_file-OpensIfSome lib timeout is_head path q r c = elim (Option-cases (lib.stat path)) [
  | inl e ↦ simp (answer_file, e) (inl refl)
  | inr (st, e) ↦ elim (EtagMatch-cases (check_etag (make_etag path st) q)) [
    | inl m ↦ simp (answer_file, e, m) (inl refl)
    | inr (inr m) ↦ simp (answer_file, e, m) tt
    | inr (inl m) ↦ elim (Bool-cases (is_unmodified lib st q)) [
      | inl old ↦ simp (answer_file, e, m, old) (inl refl)
      | inr young ↦
          simp (answer_file, e, m, young) (inr (serve_path-opened lib timeout is_head path q r c))
    ]
  ]
]

answer_path-OpensIfSome :
    (lib : Library) (timeout : ℕ) (is_head : Bool) (path : Bytes) (q : Request) (r : Response)
    (c : Cache)
    → OpensIfSome path (answer_path lib timeout is_head path q r c)
unfolding answer_path
answer_path-OpensIfSome lib timeout is_head path q r c =
    elim (Option-cases (find_cached_response lib.time path (some q) c)) [
      | inl e ↦ simp (answer_path, e) (answer_file-OpensIfSome lib timeout is_head path q r c)
      | inr (i, e) ↦
          elim (Option-cases (answer_cached is_head q (get_or c.entries i zero_cache_entry) r)) [
            | inl e1 ↦ simp (answer_path, e, e1) tt
            | inr (a, e1) ↦ simp (answer_path, e, e1) (inl refl)
          ]
    ]

-- Every opened file is the index path of a path that lies within the canonical root.
abbrev AllWithin : (Bytes → Option Bytes) → Bytes → List Bytes → Type 0
AllWithin realpath dir ps =
    All
      (λ p.
        (path root : Bytes) × (realpath dir ≡ some root)
        × IsWithin root path
        × (p ≡ index_path path))
      ps

abbrev AllWithinIfSome : (Bytes → Option Bytes) → Bytes → Option Serving → Type 0
AllWithinIfSome realpath dir none = Unit
AllWithinIfSome realpath dir (some s) = AllWithin realpath dir s.opened

Opens-AllWithin :
    (realpath : Bytes → Option Bytes) (dir path root : Bytes) (o : Option Serving)
    → realpath dir ≡ some root
    → IsWithin root path
    → OpensIfSome path o
    → AllWithinIfSome realpath dir o
Opens-AllWithin realpath dir path root none e w opens = tt
Opens-AllWithin realpath dir path root (some s) e w (inl none_opened) =
    subst (AllWithin realpath dir) (sym none_opened) tt
Opens-AllWithin realpath dir path root (some s) e w (inr one) =
    subst (AllWithin realpath dir) (sym one) ((path, root, e, w, refl), tt)

http_handle_request-AllWithinIfSome :
    (realpath : Bytes → Option Bytes) (lib : Library) (config : Config) (q : Request) (c : Cache)
    → AllWithinIfSome realpath config.root_dir (http_handle_request realpath lib config q c)
unfolding http_handle_request
http_handle_request-AllWithinIfSome realpath lib config q c =
    elim (Bool-cases
      (not (strcmp_eq q.method (codes "GET") || strcmp_eq q.method (codes "HEAD")))) [
        | inl other ↦ simp (http_handle_request, other) tt
        | inr known ↦
            elim (Option-cases
              (validate_and_resolve_path realpath config.root_dir (request_path q) path_max)) [
                | inl e ↦ simp (http_handle_request, known, e) tt
                | inr (path, e) ↦
                    let resolved =
                      resolved-IsWithin realpath config.root_dir (request_path q) path_max path e in
                    simp (http_handle_request, known, e)
                      (Opens-AllWithin realpath config.root_dir path resolved.0 _ resolved.1
                        resolved.2
                        (answer_path-OpensIfSome lib config.keep_alive_timeout
                          (strcmp_eq q.method (codes "HEAD")) path q (http_create_response 200) c))
              ]
      ]

-- Whatever is asked for, and whatever realpath and the file system answer, a file that is opened for
-- a request is that of a path within the canonical document root, or the index file of one.
pub http_handle_request-IsWithin :
    (realpath : Bytes → Option Bytes) (lib : Library) (config : Config) (q : Request) (c : Cache)
    (s : Serving)
    → http_handle_request realpath lib config q c ≡ some s
    → AllWithin realpath config.root_dir s.opened
http_handle_request-IsWithin realpath lib config q c s e =
    subst (AllWithinIfSome realpath config.root_dir) e
      (http_handle_request-AllWithinIfSome realpath lib config q c)
