-- ===== src/ActiveDirectory/Filter.antt =====
-- The filter that webcontrol_activedirectory_handle_request searches with.
use squid_helper.Buffer.Grow.{round_capacity_bounds}
use squid_helper.Strtok.Laws.{IsToken}
use squid_helper.Base.{
  length-drop, length-replicate, size_mod, length-append, Bool, ℕ, ◌+◌, ◌-◌, ◌%◌, ◌<◌, ◌^◌, ◌≡◌,
  refl, ◌==◌, Option, none, some, [], ◌∷◌, ◌++◌, length, arith, drop,
}
use squid_helper.Memory.{Bytes, Mem, Result, ok, malloc}
use squid_helper.Memory.Laws.{memcpy_string}
use squid_helper.Buffer.{round_capacity, buffer_prepare_copy, Buffer}
use squid_helper.Buffer.Holds.{stored}
use squid_helper.ActiveDirectory.{Config, format_string, assemble_filter}

abbrev pub is_percent : ℕ → Bool
is_percent c = c == b'%'

-- A template with one "%s" and no other conversion.
abbrev pub template_of : Bytes → Bytes → Bytes
template_of before after = before ++ b'%' ∷ b's' ∷ after

format_plain : (t : Bytes) (arg : Option Bytes) → IsToken is_percent t → format_string t arg ≡ ok t
unfolding format_string
format_plain [] arg h = refl
format_plain (c ∷ []) arg h = rw h.0
format_plain (c ∷ d ∷ t) arg h = rw (h.0, format_plain (d ∷ t) arg h.1)

pub format_string_lem :
    (before after host : Bytes)
    → IsToken is_percent before
    → IsToken is_percent after
    → format_string (template_of before after) (some host) ≡ ok (before ++ (host ++ after))
unfolding format_string
format_string_lem [] after host h k = rw (format_plain after none k)
format_string_lem (c ∷ []) after host h k = rw (h.0, format_plain after none k)
format_string_lem (c ∷ d ∷ before) after host h k =
    rw (h.0, format_string_lem (d ∷ before) after host h.1 k)

-- The filter is in the block, with its terminator; `len` does not count that.
pub record Assembled (r : Result Buffer) (t : Bytes) : Type 0 where
  pub buf : Buffer
  pub more : Mem
  pub result : r ≡ ok buf
  pub ptr : buf.ptr ≡ some (stored t more)
  pub len : buf.len ≡ length t
  pub sized : length t + 1 + length more ≡ buf.capacity

-- For a template of one "%s" and no other conversion, whose length is stored, and a host name with
-- which the text stays below 2^62 bytes: the filter is the template with the name filled in,
-- written with its terminator inside the new block, and `len` is its length.
pub assemble_filter_lem :
    (config : Config) (before after host : Bytes)
    → config.filter ≡ some (template_of before after)
    → config.filter_len ≡ length (template_of before after)
    → IsToken is_percent before
    → IsToken is_percent after
    → length (before ++ (host ++ after)) < 2 ^ 62
    → Assembled (assemble_filter config host) (before ++ (host ++ after))
unfolding assemble_filter buffer_prepare_copy
assemble_filter_lem config before after host e l h k f =
    let text = before ++ (host ++ after) in
    let size = length text in
    let sizes = length-append before (host ++ after) in
    let sizes' = length-append host after in
    let sizes'' = length-append before (b'%' ∷ b's' ∷ after) in
    let n : (length host + config.filter_len + size_mod - 2) % size_mod ≡ size = omega arith in
    let cap = round_capacity size in
    let bounds = round_capacity_bounds size (omega arith) in
    let room = length-replicate {A = Option ℕ} cap none in
    let copied = memcpy_string [] (malloc cap) text [] 0 (size + 1) refl refl (omega arith) in
    record {
      buf = record {
        ptr = some (stored text (drop (size + 1) (malloc cap)));
        len = size;
        capacity = cap;
      };
      more = drop (size + 1) (malloc cap);
      result = rw (assemble_filter, e, n, format_string_lem before after host h k, copied);
      ptr = refl;
      len = refl;
      sized = omega (arith, length-drop (size + 1) (malloc cap));
    }
