-- ===== src/Main/Directories.antt =====
-- About ensure_directories_exist of src/main.c.
use nx_lite.Base.{
  ℕ, ◌≡◌, refl, sym, subst, ap, inl, inr, Bool, true, false, not, ◌&&◌, ◌||◌, some, List, [], ◌∷◌,
  ◌++◌, ◌==◌, length, append_assoc, append-nil, ◌<◌, Bytes, strcmp_eq, strcmp_eq_refl, arith,
  Bool-cases,
}
use nx_lite.Main.{
  FileSystem, is_member, exists_in, make_directory, visit, make_ancestors, directory_of,
  ensure_directories_exist,
}

-- mkdir never fails.
abbrev pub MakesAll : FileSystem → Type 0
MakesAll fs = (made : List Bytes) (p : Bytes) → fs.mkdir made p ≡ true

-- What is there stays there.
abbrev Grows : FileSystem → List Bytes → List Bytes → Type 0
Grows fs made made' = (p : Bytes) → exists_in fs made p ≡ true → exists_in fs made' p ≡ true

or_true : (b c : Bool) → c ≡ true → (b || c) ≡ true
or_true true c e = refl
or_true false c e = e

exists_in-cons :
    (fs : FileSystem) (made : List Bytes) (p q : Bytes)
    → exists_in fs made p ≡ true
    → exists_in fs (q ∷ made) p ≡ true
exists_in-cons fs made p q e = elim (Bool-cases (fs.found p)) [
  | inl found ↦ rw found refl
  | inr absent ↦ ground (arith, e, absent, or_true (strcmp_eq q p) (is_member p made))
]

exists_in-new : (fs : FileSystem) (made : List Bytes) (p : Bytes) → exists_in fs (p ∷ made) p ≡ true
exists_in-new fs made p = or_true (fs.found p) _ (rw (strcmp_eq_refl p) refl)

-- The directory is there now, as is all that was there, and the caller goes on.
abbrev Makes : FileSystem → Bytes → List Bytes → List Bytes × Bool → Type 0
Makes fs p made r = (r.1 ≡ true) × (exists_in fs r.0 p ≡ true) × Grows fs made r.0

make_directory-there :
    (fs : FileSystem) (p : Bytes) (made : List Bytes)
    → exists_in fs made p ≡ true
    → make_directory fs p made ≡ (made, true)
unfolding make_directory
make_directory-there fs p made there = rw there refl

make_directory-absent :
    (fs : FileSystem) (p : Bytes) (made : List Bytes)
    → MakesAll fs
    → exists_in fs made p ≡ false
    → make_directory fs p made ≡ (p ∷ made, true)
unfolding make_directory
make_directory-absent fs p made all absent = rw (absent, all made p) refl

make_directory-Makes :
    (fs : FileSystem) (p : Bytes) (made : List Bytes)
    → MakesAll fs
    → Makes fs p made (make_directory fs p made)
make_directory-Makes fs p made all = elim (Bool-cases (exists_in fs made p)) [
  | inl there ↦
      subst (Makes fs p made) (sym (make_directory-there fs p made there)) (refl, there, λ q e. e)
  | inr absent ↦
      subst (Makes fs p made) (sym (make_directory-absent fs p made all absent))
        (refl, exists_in-new fs made p, λ q e. exists_in-cons fs made q p e)
]

visit-goes_on :
    (fs : FileSystem) (front : Bytes) (c : ℕ) (made : List Bytes)
    → MakesAll fs
    → ((visit fs front c made).1 ≡ true) × Grows fs made (visit fs front c made).0
unfolding visit
visit-goes_on fs front c made all = elim (Bool-cases (c == b'/' && not (length front == 0))) [
  | inl slash ↦
      let (goes, there, grows) = make_directory-Makes fs front made all in rw slash (goes, grows)
  | inr other ↦ rw other (refl, λ q e. e)
]

make_ancestors-step :
    (fs : FileSystem) (front : Bytes) (c : ℕ) (s : Bytes) (made : List Bytes)
    → (visit fs front c made).1 ≡ true
    → make_ancestors fs front (c ∷ s) made
      ≡ make_ancestors fs (front ++ c ∷ []) s (visit fs front c made).0
unfolding make_ancestors
make_ancestors-step fs front c s made e = simp (make_ancestors, e) refl

make_ancestors-Grows :
    (fs : FileSystem) (front s : Bytes) (made : List Bytes)
    → MakesAll fs
    → ((make_ancestors fs front s made).1 ≡ true) × Grows fs made (make_ancestors fs front s made).0
make_ancestors-Grows fs front [] made all =
    (unfold make_ancestors in refl, λ q e. unfold make_ancestors in e)
make_ancestors-Grows fs front (c ∷ s) made all =
    let (goes, grows) = visit-goes_on fs front c made all in
    let (later, more) = make_ancestors-Grows fs (front ++ c ∷ []) s (visit fs front c made).0 all in
    subst (λ (r : List Bytes × Bool). (r.1 ≡ true) × Grows fs made r.0)
      (sym (make_ancestors-step fs front c s made goes)) (later, λ q e. more q (grows q e))

make_ancestors-exist :
    (fs : FileSystem) (front a b : Bytes) (made : List Bytes)
    → MakesAll fs
    → 0 < length (front ++ a)
    → exists_in fs (make_ancestors fs front (a ++ b'/' ∷ b) made).0 (front ++ a) ≡ true
make_ancestors-exist fs front [] b made all long =
    let (goes, grows) = visit-goes_on fs front b'/' made all in
    let (later, more) =
      make_ancestors-Grows fs (front ++ b'/' ∷ []) b (visit fs front b'/' made).0 all in
    let named : (length front == 0) ≡ false = ground (arith, long, ap length (append-nil front)) in
    let there : exists_in fs (visit fs front b'/' made).0 front ≡ true =
      unfold visit in rw named (make_directory-Makes fs front made all).1 in
    subst (λ p. exists_in fs (make_ancestors fs front (b'/' ∷ b) made).0 p ≡ true)
      (sym (append-nil front))
      (subst (λ (r : List Bytes × Bool). exists_in fs r.0 front ≡ true)
        (sym (make_ancestors-step fs front b'/' b made goes)) (more front there))
make_ancestors-exist fs front (c ∷ a) b made all long =
    let (goes, grows) = visit-goes_on fs front c made all in
    subst (λ (r : List Bytes × Bool). exists_in fs r.0 (front ++ c ∷ a) ≡ true)
      (sym (make_ancestors-step fs front c (a ++ b'/' ∷ b) made goes))
      (subst
        (λ p.
          exists_in fs
            (make_ancestors fs (front ++ c ∷ []) (a ++ b'/' ∷ b) (visit fs front c made).0).0 p
          ≡ true)
        (append_assoc front (c ∷ []) a)
        (make_ancestors-exist fs (front ++ c ∷ []) a b (visit fs front c made).0 all
          (subst (λ p. 0 < length p) (sym (append_assoc front (c ∷ []) a)) long)))

ensure_directories_exist-named :
    (fs : FileSystem) (path dir : Bytes) (made : List Bytes)
    → MakesAll fs
    → directory_of path ≡ some dir
    → 0 < length dir
    → ensure_directories_exist fs path made
      ≡ (make_directory fs dir (make_ancestors fs [] dir made).0).0
unfolding ensure_directories_exist
ensure_directories_exist-named fs path dir made all e long =
    let named : (length dir == 0) ≡ false = ground (arith, long) in
    simp (ensure_directories_exist, e, named, (make_ancestors-Grows fs [] dir made all).0) refl

-- Where mkdir does not fail, the directory of a path is there afterwards, and so is each directory
-- above it, and all that was there before.
directories_exist :
    (fs : FileSystem) (path dir : Bytes) (made : List Bytes)
    → MakesAll fs
    → directory_of path ≡ some dir
    → 0 < length dir
    → (exists_in fs (ensure_directories_exist fs path made) dir ≡ true)
      × ((a b : Bytes)
          → dir ≡ a ++ b'/' ∷ b
          → 0 < length a
          → exists_in fs (ensure_directories_exist fs path made) a ≡ true)
      × ((p : Bytes)
          → exists_in fs made p ≡ true
          → exists_in fs (ensure_directories_exist fs path made) p ≡ true)
directories_exist fs path dir made all e long =
    let (goes, there, grows) = make_directory-Makes fs dir (make_ancestors fs [] dir made).0 all in
    let same = ensure_directories_exist-named fs path dir made all e long in
    (
      subst (λ xs. exists_in fs xs dir ≡ true) (sym same) there,
      λ a b split named.
          subst (λ xs. exists_in fs xs a ≡ true) (sym same)
            (grows a (
              subst (λ d. exists_in fs (make_ancestors fs [] d made).0 a ≡ true) (sym split)
                (make_ancestors-exist fs [] a b made all named))),
      λ p before.
          subst (λ xs. exists_in fs xs p ≡ true) (sym same)
            (grows p ((make_ancestors-Grows fs [] dir made all).1 p before)),
    )
