-- ===== src/Memcached/Key.antt =====
-- The keys and values that the memcached plugin works with.
use squid_helper.Memory.Laws.{length-text, memcpy_text}
use squid_helper.Types.{Request}
use squid_helper.Base.{
  ◌&&◌, ◌==◌, ◌<◌, take-append, length-drop, length-replicate, ap, ℕ, some, [], ◌∷◌, ◌++◌, refl,
  ◌≡◌, ◌≤◌, ◌+◌, length, map, drop, replicate, arith, Option,
}
use squid_helper.Memory.{load, Bytes, Mem, ok}
use squid_helper.Memcached.{Library, IsCache, key_prefix, generate_key, key_bytes, str4_cmp}

-- The key of an address.
abbrev pub key_of : Bytes → Bytes
key_of ip = key_prefix ++ ip

-- Two addresses with one key are one address.
pub key_of-injective : (a b : Bytes) → key_of a ≡ key_of b → a ≡ b
key_of-injective a b e = ap (drop 16) e

pub key_bytes_lem : (t : Bytes) → key_bytes (map some t) ≡ ok t
unfolding key_bytes
key_bytes_lem [] = refl
key_bytes_lem (c ∷ t) = rw (key_bytes_lem t)

-- The key of the longest address, 45 bytes, is short enough.
pub generate_key_lem :
    (lib : Library)
    → IsCache lib
    → (req : Request) → req.ip_addr.str_len ≡ length req.ip_addr.str
    → req.ip_addr.str_len ≤ 45
    → generate_key lib req ≡ ok (map some (key_of req.ip_addr.str))
unfolding generate_key
generate_key_lem lib cache req e h =
    let n = req.ip_addr.str_len in
    let old = drop 16 (replicate {A = Option ℕ} lib.max_key (some 0)) in
    let room = cache.key_room in
    let size = length-replicate {A = Option ℕ} lib.max_key (some 0) in
    let left = length-drop {A = Option ℕ} 16 (replicate lib.max_key (some 0)) in
    rw
      (
        memcpy_text [] (replicate lib.max_key (some 0)) key_prefix (some 0 ∷ []) 0 16 refl refl
            (omega arith),
        memcpy_text (map some key_prefix) old req.ip_addr.str (some 0 ∷ []) 16 n refl e
            (omega arith),
      )
      (ap ok (
        take-append (map some (key_of req.ip_addr.str)) (drop n old) (16 + n)
          (omega (arith, length-text req.ip_addr.str))))

-- The comparison of four bytes as one number, on a value that has four bytes in front, holds just
-- where the bytes are T, R, U and E one by one.
pub str4_cmp_lem :
    (a b c d : ℕ) (rest : Mem)
    → a < 256
    → b < 256
    → c < 256
    → d < 256
    → str4_cmp (some a ∷ some b ∷ some c ∷ some d ∷ rest) b'T' b'R' b'U' b'E'
      ≡ ok (a == b'T' && (b == b'R' && (c == b'U' && d == b'E')))
unfolding str4_cmp load
str4_cmp_lem a b c d rest ha hb hc hd = ap ok (ground arith)
