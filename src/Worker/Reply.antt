-- ===== src/Worker/Reply.antt =====
-- What `send_response` of src/core/main.c prints, as Squid reads it: a decimal number, the status, and
-- the message if there is one.
use squid_helper.Worker.{response}
use squid_helper.Scanf.{print_digits, print_size}
use native.Mathlib.Decide.{dec_lt}
use squid_helper.Memory.{Bytes, codes}
use squid_helper.Base.{
  append-nil, All-append, ℕ, zero, suc, ◌+◌, ◌-◌, ◌*◌, ◌/◌, ◌%◌, ◌≡◌, ◌≢◌, ◌≤◌, ◌<◌, refl, All,
  arith, Bool, true, false, Option, none, some, [], ◌∷◌, ◌++◌, ◌∙◌, sym, lt→ltb, le→ltb,
  append_assoc,
}

abbrev pub IsDigit : ℕ → Type 0
IsDigit c = (b'0' ≤ c) × (c ≤ b'9')

-- The number that digits spell behind `n`.
abbrev pub value : ℕ → Bytes → ℕ
value n [] = n
value n (c ∷ t) = value (n * 10 + (c - b'0')) t

pub record IsDecimal (n : ℕ) (t : Bytes) : Type 0 where
  pub nonempty : t ≢ []
  pub digits : All IsDigit t
  pub spells : value 0 t ≡ n

-- What stands behind the number.
abbrev pub behind : Bool → Option Bytes → Bytes
behind true none = codes " OK\n"
behind false none = codes " ERR\n"
behind true (some msg) = codes " OK log=" ++ (msg ++ codes "\n")
behind false (some msg) = codes " ERR log=" ++ (msg ++ codes "\n")

-- A reply on a channel, with a status and a message that may be missing.
pub record IsReply (channel : ℕ) (success : Bool) (msg : Option Bytes) (r : Bytes) : Type 0 where
  pub number : Bytes
  pub decimal : IsDecimal channel number
  pub text : r ≡ number ++ behind success msg

-- The digits in front of `acc`.
record Printed (n : ℕ) (acc t : Bytes) : Type 0 where
  front : Bytes
  decimal : IsDecimal n front
  shape : t ≡ front ++ acc

value-append : (n : ℕ) (a b : Bytes) → value n (a ++ b) ≡ value (value n a) b
value-append n [] b = refl
value-append n (c ∷ a) b = value-append (n * 10 + (c - b'0')) a b

append-ne-nil : (t : Bytes) (c : ℕ) → t ++ c ∷ [] ≢ []
append-ne-nil [] c e = cc
append-ne-nil (d ∷ t) c e = cc

print_digits-Printed :
    (fuel n : ℕ) (acc : Bytes) → n < fuel → Printed n acc (print_digits fuel n acc)
unfolding print_digits
print_digits-Printed zero n acc h = absurd (omega arith)
print_digits-Printed (suc fuel) n acc h = elim (dec_lt n 10) [
  | yes p ↦ rw (lt→ltb n 10 p) (record {
    front = (b'0' + n) ∷ [];
    decimal = record {
      nonempty = λ e. cc;
      digits = ((omega arith, omega arith), tt);
      spells = omega arith;
    };
    shape = refl;
  })
  | no p ↦
      let d = b'0' + n % 10 in
      let r = print_digits-Printed fuel (n / 10) (d ∷ acc) (omega arith) in
      rw (le→ltb n 10 (omega arith)) (record {
        front = r.front ++ d ∷ [];
        decimal = record {
          nonempty = append-ne-nil r.front d;
          digits =
              All-append IsDigit r.front (d ∷ []) r.decimal.digits ((omega arith, omega arith), tt);
          spells = value-append 0 r.front (d ∷ []) ∙ omega (arith, r.decimal.spells);
        };
        shape = r.shape ∙ sym (append_assoc r.front (d ∷ []) acc);
      })
]

print_size-IsDecimal : (n : ℕ) → IsDecimal n (print_size n)
unfolding print_size
print_size-IsDecimal n =
    let r = print_digits-Printed (suc n) n [] (omega arith) in
    rw (r.shape ∙ append-nil r.front) r.decimal

pub response-IsReply :
    (n : ℕ) (success : Bool) (msg : Option Bytes) → IsReply n success msg (response n success msg)
unfolding response
response-IsReply n true none = record {
  number = print_size n;
  decimal = print_size-IsDecimal n;
  text = refl;
}
response-IsReply n false none = record {
  number = print_size n;
  decimal = print_size-IsDecimal n;
  text = refl;
}
response-IsReply n true (some msg) = record {
  number = print_size n;
  decimal = print_size-IsDecimal n;
  text = refl;
}
response-IsReply n false (some msg) = record {
  number = print_size n;
  decimal = print_size-IsDecimal n;
  text = refl;
}
