-- ===== src/Worker/Jobs.antt =====
-- What a worker does with the jobs that it takes from the queue.
use squid_helper.Worker.Heed.{Heeds, scan_request-Heeds}
use squid_helper.Worker.Contract.{Contract}
use squid_helper.Worker.Respond.{line-Responded}
use squid_helper.Input.Stream.{joined}
use squid_helper.Memory.Laws.{IsNulFree}
use squid_helper.Scanf.{scan_request}
use squid_helper.Buffer.Holds.{stored}
use squid_helper.Worker.Reply.{IsReply}
use squid_helper.Worker.{word_width, Work, Core, work}
use squid_helper.Base.{
  append_assoc, ap, ◌∙◌, append-nil, sym, map, All, ◌≡◌, Bool, Option, List, ℕ, true, none, some,
  [], ◌∷◌, ◌++◌, refl,
}
use squid_helper.Memory.{Bytes, Mem, ok}

-- The replies answer the lines one by one, each on the channel that is read from its line; of a line
-- that Squid sends that is its number.
abbrev pub Answers : ℕ → List Bytes → List Bytes → Type 0
Answers width [] [] = Unit
Answers width [] (r ∷ rs) = ⊥
Answers width (t ∷ ts) [] = ⊥
Answers width (t ∷ ts) (r ∷ rs) =
    ((success : Bool) × (msg : Option Bytes) × IsReply (scan_request width t).0 success msg r
      × Heeds width t (scan_request width t))
    × Answers width ts rs

abbrev pub job : Bytes → Option Mem
job t = some (stored t [])

-- With plugins that keep a contract, whose invariant holds, a worker that takes lines without NUL
-- bytes and then a NULL handles them all in order with no fault, prints one reply for each and
-- nothing else, each with the number that `sscanf` reads from its line or 0 in decimal; from a
-- line of a decimal number within `size_t`, a blank and a word that the conversion holds, the
-- number and the word are read. It ends there: what is queued behind its NULL is left to others.
pub work_lem :
    {W : Type 0} (core : Core W) (contract : Contract core) (ts : List Bytes)
    (jobs : List (Option Mem)) (s : Work W)
    → contract.Inv s.state
    → All IsNulFree ts
    → (s' : Work W) × (replies : List Bytes) × (work core (map job ts ++ none ∷ jobs) s
        ≡ ok (s', jobs, true))
      × (s'.stdout ≡ s.stdout ++ joined replies)
      × Answers (word_width core.have_ipv6) ts replies
unfolding work
work_lem core contract [] jobs s i z = (s, [], refl, sym (append-nil s.stdout), tt)
work_lem core contract (t ∷ ts) jobs s i z =
    let (r, k) = line-Responded core contract t [] s z.0 i in
    let (s', replies, e, p, a) = work_lem core contract ts jobs r.out k z.1 in
    (
      s',
      r.reply ∷ replies,
      rw r.result e,
      p ∙ ap (λ q. q ++ joined replies) r.printed ∙ append_assoc s.stdout r.reply (joined replies),
      ((r.success, r.msg, r.said, scan_request-Heeds (word_width core.have_ipv6) t), a),
    )
