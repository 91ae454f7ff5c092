-- ===== src/Net/Scheme/Names.antt =====
-- `fpath`: the three copying loops write one text, cut at the end of the buffer.
use drivers.Base.{
  ℕ, suc, ◌+◌, ◌≤◌, min, ◌≡◌, refl, ◌∙◌, ap, sym, Option, some, List, [], ◌∷◌, ◌++◌, arith, ltb,
  length, set, length-set, Bool-cases, inl, inr, length-append, zero, true,
}
use mathlib.Core.List.{append_assoc}
use drivers.Base.Map.{lookup}
use drivers.Base.Outcome.{Outcome, ok}
use drivers.Net.Scheme.{NetworkScheme, Handle, fill, put_colon, colon, path_of, fpath}

-- A text over the front of a buffer, as much of it as fits.
pub overlay : List ℕ → List ℕ → List ℕ
overlay [] ys = ys
overlay (x ∷ xs) [] = []
overlay (x ∷ xs) (y ∷ ys) = x ∷ overlay xs ys

fill_full : (buf src : List ℕ) (i : ℕ) → length buf ≤ i → fill buf i src ≡ (buf, i)
unfolding fill
fill_full buf [] i h = refl
fill_full buf (x ∷ xs) i h = ground arith

fill_append :
    (buf xs ys : List ℕ) (i : ℕ)
    → i ≤ length buf
    → fill buf i (xs ++ ys) ≡ (let (b, k) = fill buf i xs in fill b k ys)
unfolding fill
fill_append buf [] ys i h = refl
fill_append buf (x ∷ xs) ys i h = elim (Bool-cases (ltb i (length buf))) [
  | inl room ↦
      rw room (fill_append (set buf i x) xs ys (i + 1) (rw (length-set buf i x) (ground arith)))
  | inr full ↦ rw full (sym (fill_full buf ys i (ground arith)))
]

set_middle :
    (front rest : List ℕ) (i x y : ℕ)
    → i ≡ length front
    → set (front ++ (y ∷ rest)) i x ≡ front ++ (x ∷ rest)
set_middle [] rest zero x y e = refl
set_middle [] rest (suc i) x y e = absurd (omega arith)
set_middle (f ∷ front) rest zero x y e = absurd (omega arith)
set_middle (f ∷ front) rest (suc i) x y e = ap (◌∷◌ f) (set_middle front rest i x y (omega arith))

fill-overlay :
    (src front rest : List ℕ) (i n : ℕ)
    → i ≡ length front
    → n ≡ i + min (length src) (length rest)
    → fill (front ++ rest) i src ≡ (front ++ overlay src rest, n)
unfolding fill overlay
fill-overlay [] front rest i n e f = ap (λ (t : ℕ). (front ++ rest, t)) (omega arith)
fill-overlay (x ∷ xs) front [] i n e f =
    fill_full (front ++ []) (x ∷ xs) i (omega (arith, length-append front []))
    ∙ ap (λ (t : ℕ). (front ++ [], t)) (omega arith)
fill-overlay (x ∷ xs) front (y ∷ ys) i n e f =
    let room : ltb i (length (front ++ (y ∷ ys))) ≡ true =
      ground (arith, length-append front (y ∷ ys)) in
    rw (room, set_middle front ys i x y e, ← append_assoc front (x ∷ []) ys)
      (fill-overlay xs (front ++ (x ∷ [])) ys (i + 1) n
          (omega (arith, length-append front (x ∷ []))) (omega arith)
        ∙ ap (λ (t : List ℕ). (t, n)) (append_assoc front (x ∷ []) (overlay xs ys)))

put_colon-fill : (buf : List ℕ) (i : ℕ) → put_colon buf i ≡ fill buf i (colon ∷ [])
unfolding fill
put_colon-fill buf i = refl

-- The whole name of a handle: the scheme, a colon, and the file.
abbrev pub full_name : {A : Type 0} → NetworkScheme A → Handle → List ℕ
full_name s handle = s.scheme_name ++ (colon ∷ path_of handle)

fill-le :
    (buf src : List ℕ) (i : ℕ) → i ≤ length buf → (fill buf i src).1 ≤ length (fill buf i src).0
unfolding fill
fill-le buf [] i h = h
fill-le buf (x ∷ xs) i h = elim (Bool-cases (ltb i (length buf))) [
  | inl room ↦ rw room (fill-le (set buf i x) xs (i + 1) (rw (length-set buf i x) (ground arith)))
  | inr full ↦ rw full h
]

-- `fpath` of an open handle writes the name of its file, "scheme:" or "scheme:mac", over the
-- front of the buffer, as much of it as fits, leaves the rest of the buffer and the state alone, and
-- returns the number of bytes written.
fpath_writes :
    {A : Type 0} (id : ℕ) (buf : List ℕ) (s : NetworkScheme A) (handle : Handle)
    → lookup id s.handles ≡ some handle
    → fpath id buf s ≡ (
      ok (some (min (length (full_name s handle)) (length buf))),
      overlay (full_name s handle) buf,
      s,
    )
unfolding fpath
fpath_writes {A} id buf s handle found =
    let name = s.scheme_name in
    let path = path_of handle in
    let staged =
      fill_append buf name (colon ∷ path) 0 (omega arith)
      ∙ fill_append (fill buf 0 name).0 (colon ∷ []) path (fill buf 0 name).1
          (fill-le buf name 0 (omega arith)) in
    let whole =
      sym staged
      ∙ fill-overlay (name ++ (colon ∷ path)) [] buf 0
          (min (length (name ++ (colon ∷ path))) (length buf)) refl (omega arith) in
    rw (found, fpath)
      (ap {B = Outcome (Option ℕ) × List ℕ × NetworkScheme A}
        (λ (r : List ℕ × ℕ). (ok (some r.1), r.0, s)) whole)
