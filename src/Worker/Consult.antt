-- ===== src/Worker/Consult.antt =====
-- Which plugin decides: the loop over the request handlers against a relation that describes it.
use squid_helper.Worker.{run_post_handlers, run_handlers, is_go_on}
use squid_helper.Types.{
  Request, Plugin, HandlerStatus, handler_go_on, handler_allow, handler_deny, handler_ok,
  handler_error,
}
use squid_helper.Base.{
  Option, Option-cases, All, ◌∙◌, arith, inr, inl, ◌≢◌, ◌⊎◌, ◌≡◌, List, false, none, some, [], ◌∷◌,
  refl,
}
use squid_helper.Memory.{Result, ok}

-- The plugins in order are asked until one gives a status that is not HANDLER_GO_ON: its status is
-- the result, and the later plugins are not asked.
pub data Consult {W : Type 0} : List (Plugin W) → Request → W → Request → W → Type 0 where
  exhausted : {req : Request} {w : W} → Consult [] req w req w
  no_handler :
      {p : Plugin W} {ps : List (Plugin W)} {req req' : Request} {w w' : W}
      → p.handle_request ≡ none
      → Consult ps req w req' w'
      → Consult (p ∷ ps) req w req' w'
  unable :
      {p : Plugin W} {ps : List (Plugin W)} {req req₁ req' : Request} {w w₁ w' : W}
      (handler : Request → W → Result (HandlerStatus × Request × W))
      → p.handle_request ≡ some handler
      → handler req w ≡ ok (handler_go_on, req₁, w₁)
      → Consult ps (record req₁ { result = some handler_go_on }) w₁ req' w'
      → Consult (p ∷ ps) req w req' w'
  decided :
      {p : Plugin W} {ps : List (Plugin W)} {req req₁ : Request} {w w₁ : W} {status : HandlerStatus}
      (handler : Request → W → Result (HandlerStatus × Request × W))
      → p.handle_request ≡ some handler
      → handler req w ≡ ok (status, req₁, w₁)
      → status ≢ handler_go_on
      → Consult (p ∷ ps) req w (record req₁ { result = some status }) w₁

-- What a plugin owes while a request is handled: from where `During` holds, its handlers return with
-- no fault, leave the channel alone, and `During` holds again.
pub record Keeps {W : Type 0} (During : Request → W → Type 0) (p : Plugin W) : Type 0 where
  pub handles :
      (handler : Request → W → Result (HandlerStatus × Request × W)) (req : Request) (w : W)
      → (p.handle_request ≡ some handler) ⊎ (p.post_handle_request ≡ some handler)
      → During req w
      → (status : HandlerStatus) × (req' : Request) × (w' : W) × (handler req w
          ≡ ok (status, req', w'))
        × (req'.channel ≡ req.channel)
        × During req' w'

is_go_on-cases :
    (s : HandlerStatus) → (s ≡ handler_go_on) ⊎ ((s ≢ handler_go_on) × (is_go_on s ≡ false))
is_go_on-cases handler_go_on = inl refl
is_go_on-cases handler_allow = inr (λ e. cc, refl)
is_go_on-cases handler_deny = inr (λ e. cc, refl)
is_go_on-cases handler_ok = inr (λ e. cc, refl)
is_go_on-cases handler_error = inr (λ e. cc, refl)

is_go_on_of_ne : (s : HandlerStatus) → s ≢ handler_go_on → is_go_on s ≡ false
is_go_on_of_ne s h = elim (is_go_on-cases s) [ inl e ↦ absurd (h e) | inr (n, e) ↦ e ]

module _ {W : Type 0} where
  -- One turn of the loop, by what the plugin has.
  run_none :
      (p : Plugin W) (ps : List (Plugin W)) (req : Request) (w : W)
      → p.handle_request ≡ none
      → run_handlers (p ∷ ps) req w ≡ run_handlers ps req w
  unfolding run_handlers
  run_none p ps req w e = ground arith

  run_go_on :
      (p : Plugin W) (ps : List (Plugin W)) (req req₁ : Request) (w w₁ : W)
      (handler : Request → W → Result (HandlerStatus × Request × W))
      → p.handle_request ≡ some handler
      → handler req w ≡ ok (handler_go_on, req₁, w₁)
      → run_handlers (p ∷ ps) req w
        ≡ run_handlers ps (record req₁ { result = some handler_go_on }) w₁
  unfolding run_handlers
  run_go_on p ps req req₁ w w₁ handler e h = ground arith

  run_decided :
      (p : Plugin W) (ps : List (Plugin W)) (req req₁ : Request) (w w₁ : W) (status : HandlerStatus)
      (handler : Request → W → Result (HandlerStatus × Request × W))
      → p.handle_request ≡ some handler
      → handler req w ≡ ok (status, req₁, w₁)
      → status ≢ handler_go_on
      → run_handlers (p ∷ ps) req w ≡ ok (record req₁ { result = some status }, w₁)
  unfolding run_handlers
  run_decided p ps req req₁ w w₁ status handler e h n = ground (arith, is_go_on_of_ne status n)

  -- The loop over the request handlers returns what the relation `Consult` describes: plugins
  -- without a handler are passed over, a handler that answers HANDLER_GO_ON hands its request and
  -- state on, and the first that answers anything else ends the consultation with its status.
  pub run_handlers_of_Consult :
      {ps : List (Plugin W)} {req req' : Request} {w w' : W}
      → Consult ps req w req' w'
      → run_handlers ps req w ≡ ok (req', w')
  unfolding run_handlers
  run_handlers_of_Consult exhausted = refl
  run_handlers_of_Consult (no_handler {p = p} {ps = ps} {req = req} {w = w} e c) =
      run_none p ps req w e ∙ run_handlers_of_Consult c
  run_handlers_of_Consult
        (unable {p = p} {ps = ps} {req = req} {req₁ = req₁} {w = w} {w₁ = w₁} handler e h c) =
      run_go_on p ps req req₁ w w₁ handler e h ∙ run_handlers_of_Consult c
  run_handlers_of_Consult
        (decided {p = p} {ps = ps} {req = req} {req₁ = req₁} {w = w} {w₁ = w₁} {status = s} handler
          e h n) =
      run_decided p ps req req₁ w w₁ s handler e h n

module _ {W : Type 0} (During : Request → W → Type 0)
    (set_result : (req : Request) (w : W) (r : Option HandlerStatus)
      → During req w
      → During (record req { result = r }) w) where
  -- With plugins that keep `During`, some run of the relation exists.
  pub Consult-total :
      (ps : List (Plugin W)) (req : Request) (w : W)
      → All (Keeps During) ps
      → During req w
      → (req' : Request) × (w' : W) × Consult ps req w req' w'
        × (req'.channel ≡ req.channel)
        × During req' w'
  Consult-total [] req w t d = (req, w, exhausted, refl, d)
  Consult-total (p ∷ ps) req w t d = elim (Option-cases p.handle_request) [
    | inl e ↦
        let (req', w', c, k, d') = Consult-total ps req w t.1 d in (req', w', no_handler e c, k, d')
    | inr (handler, e) ↦
        let (status, req₁, w₁, h, k₁, d₁) = t.0.handles handler req w (inl e) d in
        elim (is_go_on-cases status) [
          | inl g ↦
              let (req', w', c, k, d') =
                Consult-total ps (record req₁ { result = some handler_go_on }) w₁ t.1
                  (set_result req₁ w₁ (some handler_go_on) d₁) in
              (req', w', unable handler e (rw g at h) c, k ∙ k₁, d')
          | inr (n, _) ↦ (
            record req₁ { result = some status },
            w₁,
            decided handler e h n,
            k₁,
            set_result req₁ w₁ (some status) d₁,
          )
        ]
  ]

  -- The post handlers are all called.
  pub post_total :
      (ps : List (Plugin W)) (req : Request) (w : W)
      → All (Keeps During) ps
      → During req w
      → (req' : Request) × (w' : W) × (run_post_handlers ps req w ≡ ok (req', w')) × During req' w'
  unfolding run_post_handlers
  post_total [] req w t d = (req, w, refl, d)
  post_total (p ∷ ps) req w t d = elim (Option-cases p.post_handle_request) [
    | inl e ↦ let (req', w', r, d') = post_total ps req w t.1 d in (req', w', ground (arith, r), d')
    | inr (handler, e) ↦
        let (status, req₁, w₁, h, k, d₁) = t.0.handles handler req w (inr e) d in
        let (req', w', r, d') = post_total ps req₁ w₁ t.1 d₁ in (req', w', ground (arith, r, h), d')
  ]

-- A handler answers HANDLER_ALLOW as the plugins are asked in their order: it has this request as the
-- plugins before it left it, which had no handler or went on.
pub data Allows {W : Type 0} : List (Plugin W) → Request → W → Type 0 where
  allowed_here :
      {p : Plugin W} {ps : List (Plugin W)} {req req₁ : Request} {w w₁ : W}
      (handler : Request → W → Result (HandlerStatus × Request × W))
      → p.handle_request ≡ some handler
      → handler req w ≡ ok (handler_allow, req₁, w₁)
      → Allows (p ∷ ps) req w
  behind_none :
      {p : Plugin W} {ps : List (Plugin W)} {req : Request} {w : W}
      → p.handle_request ≡ none
      → Allows ps req w
      → Allows (p ∷ ps) req w
  behind_unable :
      {p : Plugin W} {ps : List (Plugin W)} {req req₁ : Request} {w w₁ : W}
      (handler : Request → W → Result (HandlerStatus × Request × W))
      → p.handle_request ≡ some handler
      → handler req w ≡ ok (handler_go_on, req₁, w₁)
      → Allows ps (record req₁ { result = some handler_go_on }) w₁
      → Allows (p ∷ ps) req w

-- An allowed request was allowed by a plugin that was asked.
pub Consult-Allows :
    {W : Type 0} {ps : List (Plugin W)} {req req' : Request} {w w' : W}
    → Consult ps req w req' w'
    → req.result ≢ some handler_allow
    → req'.result ≡ some handler_allow
    → Allows ps req w
Consult-Allows exhausted n e = absurd (n e)
Consult-Allows (no_handler h c) n e = behind_none h (Consult-Allows c n e)
Consult-Allows (unable handler h r c) n e = behind_unable handler h r (Consult-Allows c (λ q. cc) e)
Consult-Allows (decided {req = req} {req₁ = req₁} {w = w} {w₁ = w₁} {status = s} handler h r g) n
      e =
    allowed_here {req₁ = req₁} {w₁ = w₁} handler h (ground arith)
