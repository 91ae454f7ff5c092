-- ===== src/Virtio/Queue/Chains.antt =====
-- Chains of descriptors in virtio-core/src/transport.rs.
use drivers.Base.{
  ℕ, zero, suc, ◌%◌, ◌^◌, ◌<◌, ◌≡◌, ◌≢◌, refl, ◌∙◌, ap, sym, none, some, List, [], ◌∷◌, ◌++◌,
  length, length-set, get_elem?, get_elem?-some, get_elem?-set_ne, set, arith,
}
use drivers.Base.Outcome.{ok, ◌>>=◌}
use drivers.Virtio.Queue.{
  Descriptor, Buffer, Linking, update, fill_in, set_next, link_last, link_buffer, link_buffers,
  or_first, end_chain,
}

-- The descriptor of a buffer, with what comes next
abbrev pub as_descriptor : Buffer → ℕ → Descriptor
as_descriptor b next = record {
  address = b.buffer;
  size = b.size % 2 ^ 32;
  flags = b.flags;
  next = next;
}

-- From descriptor `i` on, the descriptors `i` and `is` hold the buffers, each linked to the next.
unfoldable pub Chain : List Descriptor → ℕ → List ℕ → List Buffer → Type 0
Chain ds i is [] = ⊥
Chain ds i [] (b ∷ []) = get_elem? ds i ≡ some (as_descriptor b 0)
Chain ds i [] (b ∷ c ∷ bs) = ⊥
Chain ds i (j ∷ is) (b ∷ bs) = (get_elem? ds i ≡ some (as_descriptor b j)) × Chain ds j is bs

-- `i` is none of the others.
unfoldable pub Fresh : ℕ → List ℕ → Type 0
Fresh i [] = Unit {0}
Fresh i (j ∷ js) = (i ≢ j) × Fresh i js

none-some : (d : Descriptor) → ¬ (none ≡ some d)
none-some d e = cc

-- Indices of descriptors, all different
unfoldable pub Free : (len : ℕ) → List ℕ → Type 0
Free len [] = Unit {0}
Free len (i ∷ is) = (i < len) × (i < 2 ^ 16) × Fresh i is × Free len is

pub Free-length : (m n : ℕ) (is : List ℕ) → m ≡ n → Free m is → Free n is
Free-length m n is e f = rw (sym e) f

pub set-some :
    (ds : List Descriptor) (i : ℕ) (d e : Descriptor)
    → get_elem? ds i ≡ some d
    → get_elem? (set ds i e) i ≡ some e
set-some [] i d e h = absurd (none-some d h)
set-some (x ∷ xs) zero d e h = refl
set-some (x ∷ xs) (suc i) d e h = set-some xs i d e h

pub update-some :
    (ds : List Descriptor) (i : ℕ) (d : Descriptor) (f : Descriptor → Descriptor)
    → get_elem? ds i ≡ some d
    → update ds i f ≡ ok (set ds i (f d))
unfolding update
update-some ds i d f e = rw (e, update) refl

-- The state of the loop once it has a first descriptor
abbrev pub linking : List Descriptor → List ℕ → (first last : ℕ) → Linking
linking ds stack first last = record {
  descriptor = ds;
  descriptor_stack = stack;
  first_descriptor = some first;
  last_descriptor = some last;
}

-- The descriptors after a turn of the loop
abbrev turned : List Descriptor → Buffer → Descriptor → Buffer → (i last : ℕ) → List Descriptor
turned ds c d b i last = set (set ds i (fill_in c d)) last (as_descriptor b i)

turn_lem :
    (bs : List Buffer) (stack : List ℕ) (first last i : ℕ) (b c : Buffer) (n : ℕ) (d : Descriptor)
    (ds : List Descriptor)
    → get_elem? ds last ≡ some (as_descriptor b n)
    → get_elem? ds i ≡ some d
    → i ≢ last
    → i < 2 ^ 16
    → link_buffers (c ∷ bs) (linking ds (i ∷ stack) first last)
      ≡ link_buffers bs (linking (turned ds c d b i last) stack first i)
unfolding link_buffers link_buffer link_last or_first
turn_lem bs stack first last i b c n d ds at_last at_i ne small =
    let at_last' : get_elem? (set ds i (fill_in c d)) last ≡ some (as_descriptor b n) =
      get_elem?-set_ne ds i last (fill_in c d) ne ∙ at_last in
    let low : i % 2 ^ 16 ≡ i = omega arith in
    rw
      (
        update-some ds i d (fill_in c) at_i,
        update-some (set ds i (fill_in c d)) last (as_descriptor b n) (set_next (i % 2 ^ 16))
            at_last',
        low,
      )
      refl

pub rest_lem :
    (bs : List Buffer) (is rest : List ℕ) (first last : ℕ) (b : Buffer) (n : ℕ)
    (ds : List Descriptor)
    → get_elem? ds last ≡ some (as_descriptor b n)
    → Fresh last is
    → Free (length ds) is
    → length is ≡ length bs
    → (ds' : List Descriptor) × (link_buffers bs (linking ds (is ++ rest) first last) >>= end_chain
        ≡ ok (first, ds', rest))
      × Chain ds' last is (b ∷ bs)
      × (length ds' ≡ length ds)
      × ((k : ℕ) → last ≢ k → Fresh k is → get_elem? ds' k ≡ get_elem? ds k)
unfolding link_buffers Chain Fresh Free
rest_lem [] [] rest first last b n ds at_last fresh free e = (
  set ds last (as_descriptor b 0),
  rw (update-some ds last (as_descriptor b n) (set_next 0) at_last) refl,
  set-some ds last (as_descriptor b n) (as_descriptor b 0) at_last,
  length-set ds last (as_descriptor b 0),
  λ k ne other. get_elem?-set_ne ds last k (as_descriptor b 0) ne,
)
rest_lem [] (i ∷ is) rest first last b n ds at_last fresh free e = absurd (omega arith)
rest_lem (c ∷ bs) [] rest first last b n ds at_last fresh free e = absurd (omega arith)
rest_lem (c ∷ bs) (i ∷ is) rest first last b n ds at_last (ne, fresh) (inside, small, fresh_i, free)
      e =
    let (d, at_i) = get_elem?-some ds i inside in
    let ne' : i ≢ last = λ p. ne (sym p) in
    let filled = set ds i (fill_in c d) in
    let next = turned ds c d b i last in
    let same : length next ≡ length ds =
      length-set filled last (as_descriptor b i) ∙ length-set ds i (fill_in c d) in
    let now_last : get_elem? filled last ≡ some (as_descriptor b n) =
      get_elem?-set_ne ds i last (fill_in c d) ne' ∙ at_last in
    let now_i : get_elem? next i ≡ some (as_descriptor c d.next) =
      get_elem?-set_ne filled last i (as_descriptor b i) ne ∙ set-some ds i d (fill_in c d) at_i in
    let (ds', run, chained, len, kept) =
      rest_lem bs is rest first i c d.next next now_i fresh_i
        (Free-length (length ds) (length next) is (sym same) free) (omega arith) in
    (
      ds',
      ap (λ o. o >>= end_chain)
            (turn_lem bs (is ++ rest) first last i b c n d ds at_last at_i ne' small)
          ∙ run,
      (
        kept last ne' fresh ∙ set-some filled last (as_descriptor b n) (as_descriptor b i) now_last,
        chained,
      ),
      len ∙ same,
      λ k other others.
          kept k (λ p. others.0 (sym p)) others.1
          ∙ get_elem?-set_ne filled last k (as_descriptor b i) other
          ∙ get_elem?-set_ne ds i k (fill_in c d) (λ p. others.0 (sym p)),
    )
