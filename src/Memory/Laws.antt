-- ===== src/Memory/Laws.antt =====
-- What the string functions of `Memory` do on blocks whose contents are known.
use squid_helper.Base.{
  take, length-drop, length-take, take-append-drop, Option, ℕ, ◌+◌, ◌≤◌, ◌<◌, some, [], ◌∷◌, ◌++◌,
  map, lt→ltb, le→leb, length, drop, length-append, length-map, append_assoc, take-append, drop-add,
  get_elem?-append, set-append, All, ◌≡◌, refl, ap, ◌≢◌, arith,
}
use squid_helper.Memory.{Bytes, ok, Mem, load, store, strlen, memcpy}

pub length-text : (t : Bytes) → length (map {B = Option ℕ} some t) ≡ length t
length-text t = length-map some t

-- Bytes that hold no terminator.
abbrev pub IsNulFree : Bytes → Type 0
IsNulFree t = All (λ c. c ≢ 0) t

pub strlen_lem :
    (t : Bytes) (rest : Mem) → IsNulFree t → strlen (map some t ++ some 0 ∷ rest) ≡ ok (length t)
unfolding strlen
strlen_lem [] rest h = refl
strlen_lem (c ∷ t) rest h = ground (arith, strlen_lem t rest h.1)

pub load_lem :
    (pre : Mem) (c : ℕ) (post : Mem) (i : ℕ) → i ≡ length pre → load (pre ++ some c ∷ post) i ≡ ok c
unfolding load
load_lem pre c post i e = rw (load, get_elem?-append pre (some c) post i e)

pub store_lem :
    (pre : Mem) (old : Mem) (c i : ℕ)
    → i ≡ length pre
    → 0 < length old
    → store (pre ++ old) i c ≡ ok (pre ++ some c ∷ drop 1 old)
unfolding store
store_lem pre [] c i e h = absurd (omega arith)
store_lem pre (x ∷ old) c i e h =
    rw (lt→ltb i (length (pre ++ x ∷ old)) (omega (arith, length-append pre (x ∷ old))))
      (ap ok (set-append pre x (some c) old i e))

pub memcpy_lem :
    (pre old src more : Mem) (off n : ℕ)
    → off ≡ length pre
    → n ≡ length src
    → n ≤ length old
    → memcpy (some (pre ++ old)) off (src ++ more) n ≡ ok (some (pre ++ (src ++ drop n old)))
unfolding memcpy
memcpy_lem pre old src more off n eo en h = rw (
  le→leb n (length (src ++ more)) (omega (arith, length-append src more)),
  le→leb (off + n) (length (pre ++ old)) (omega (arith, length-append pre old)),
  take-append pre old off eo,
  take-append src more n en,
  eo,
  drop-add pre old n,
)

-- A string, and a string with its terminator, copied into a block.
pub memcpy_text :
    (pre old : Mem) (t : Bytes) (more : Mem) (off n : ℕ)
    → off ≡ length pre
    → n ≡ length t
    → n ≤ length old
    → memcpy (some (pre ++ old)) off (map some t ++ more) n
      ≡ ok (some (pre ++ (map some t ++ drop n old)))
memcpy_text pre old t more off n eo en h =
    memcpy_lem pre old (map some t) more off n eo (omega (arith, length-text t)) h

pub memcpy_string :
    (pre old : Mem) (t : Bytes) (rest : Mem) (off n : ℕ)
    → off ≡ length pre
    → n ≡ length t + 1
    → n ≤ length old
    → memcpy (some (pre ++ old)) off (map some t ++ some 0 ∷ rest) n
      ≡ ok (some (pre ++ (map some t ++ some 0 ∷ drop n old)))
memcpy_string pre old t rest off n eo en h =
    let copied =
      memcpy_lem pre old (map some t ++ some 0 ∷ []) rest off n eo
        (omega (arith, length-append (map {B = Option ℕ} some t) (some 0 ∷ []), length-text t)) h in
    rw
      (
        append_assoc (map some t) (some 0 ∷ []) rest,
        append_assoc (map some t) (some 0 ∷ []) (drop n old),
      )
      at copied

-- A byte inside a string.
pub load_text :
    (pre : Mem) (t : Bytes) (c : ℕ) (rest : Mem) (i : ℕ)
    → i ≡ length pre + length t
    → load (pre ++ (map some t ++ some c ∷ rest)) i ≡ ok c
load_text pre t c rest i e = rw (← append_assoc pre (map some t) (some c ∷ rest)) (
    load_lem (pre ++ map some t) c rest i
      (omega (arith, length-append pre (map some t), length-text t)))

pub store_text :
    (pre : Mem) (t : Bytes) (x : Option ℕ) (c : ℕ) (rest : Mem) (i : ℕ)
    → i ≡ length pre + length t
    → store (pre ++ (map some t ++ x ∷ rest)) i c ≡ ok (pre ++ (map some t ++ some c ∷ rest))
store_text pre t x c rest i e =
    rw (← append_assoc pre (map some t) (x ∷ rest), ← append_assoc pre (map some t) (some c ∷ rest))
      (store_lem (pre ++ map some t) (x ∷ rest) c i
        (omega (arith, length-append pre (map some t), length-text t)) (omega arith))

pub load-drop : (m : Mem) (n c : ℕ) (post : Mem) → drop n m ≡ some c ∷ post → load m n ≡ ok c
load-drop m n c post e =
    let whole = take-append-drop n m in
    let l = length-take n m in
    let k = length-drop n m in
    rw (← whole) (rw e (load_lem (take n m) c post n (omega (arith, ap length e))))
