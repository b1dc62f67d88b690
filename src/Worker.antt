-- ===== src/Worker.antt =====
-- The worker thread of src/core/main.c: `worker`, `send_response` and the hook macros.
pub mod Consult
pub mod Contract
pub mod Reply
pub mod Address
pub mod Heed
pub mod Respond
pub mod Jobs
use squid_helper.Scanf.{scan_request, print_size, c_string}
use squid_helper.Base.{
  ◌&&◌, not, if◌then◌else◌, Option, length, List, Bool, ℕ, zero, suc, true, false, none, some, [],
  ◌∷◌, ◌++◌, refl,
}
use squid_helper.Memory.{◌>>=◌, codes, Bytes, Mem, Result, ok, fault, abort}
use squid_helper.Types.{
  is_unspec, Plugin, InetPton, HandlerStatus, handler_go_on, handler_allow, handler_deny, Sockaddr,
  unspec, inet, inet6, Request,
}

-- The texts of `send_response` and of its callers.
abbrev pub ok_text : Bytes
ok_text = codes "OK"

abbrev pub err_text : Bytes
err_text = codes "ERR"

-- The part of `webcontrol_core_ctx` that a request is answered by. `have_ipv6` is the macro
-- HAVE_IPV6; the plugins are `plugins` up to `num_plugins`.
pub record Core (W : Type 0) : Type 0 where
  pub have_ipv6 : Bool
  pub deny_by_default : Bool
  pub pton : InetPton
  pub plugins : List (Plugin W)

-- What is written to stdout so far, and the state of the plugins.
pub record Work (W : Type 0) : Type 0 where
  pub stdout : Bytes
  pub state : W

-- The line that `send_response` prints; the flag is `status == 0`, the message may be NULL.
unfoldable pub response : ℕ → Bool → Option Bytes → Bytes
response channel success msg =
    let status_str = if success then ok_text else err_text in
    print_size channel
    ++ b' '
      ∷ (status_str ++ elim msg [ none ↦ codes "\n" | some m ↦ codes " log=" ++ (m ++ codes "\n") ])

-- The width of "%45s" or "%15s".
abbrev pub word_width : Bool → ℕ
word_width true = 45
word_width false = 15

-- The address of a text: IPv6 first where it is compiled in, else IPv4.
unfoldable pub resolve : Bool → InetPton → Bytes → Sockaddr
resolve have_ipv6 pton str =
    let v4 : Sockaddr = elim (pton.inet_pton4 str) [ none ↦ unspec | some a ↦ inet a ] in
    let v6 : Sockaddr = elim (pton.inet_pton6 str) [ none ↦ v4 | some a ↦ inet6 a ] in
    if have_ipv6 then v6 else v4

-- The request as it is before a plugin sees it.
unfoldable pub new_request : ℕ → Bytes → Sockaddr → Request
new_request channel str sockaddr = record {
  result = none;
  skip_post_handle_request = false;
  channel = channel;
  ip_addr = record { sockaddr = sockaddr; str = str; str_len = length str };
}

abbrev pub is_go_on : HandlerStatus → Bool
is_go_on handler_go_on = true
is_go_on _ = false

-- The answer by the result of the handlers: status, message, and whether the post handlers may run.
unfoldable pub answer : Bool → Option HandlerStatus → Bool × Option Bytes × Bool
answer deny (some handler_allow) = (true, none, true)
answer deny (some handler_deny) = (false, some (codes "DENIED"), true)
answer deny _ = (not deny, some (codes "UNKNOWN ERR"), false)

module _ {W : Type 0} where
  -- The loop over the request handlers.
  unfoldable pub run_handlers : List (Plugin W) → Request → W → Result (Request × W)
  run_handlers [] req w = ok (req, w)
  run_handlers (p ∷ ps) req w = elim p.handle_request [
    | none ↦ run_handlers ps req w
    | some handler ↦ do
      (status, req', w') ← handler req w
      let next = record req' { result = some status }
      elim (is_go_on status) [ true ↦ run_handlers ps next w' | false ↦ ok (next, w') ]
  ]

  -- The loop over the post handlers.
  unfoldable pub run_post_handlers : List (Plugin W) → Request → W → Result (Request × W)
  run_post_handlers [] req w = ok (req, w)
  run_post_handlers (p ∷ ps) req w = elim p.post_handle_request [
    | none ↦ run_post_handlers ps req w
    | some handler ↦ do (status, req', w') ← handler req w; run_post_handlers ps req' w'
  ]

  -- The response, and the post handlers if the request was handled and none forbids them.
  unfoldable pub finish : Core W → Request → Work W → Result (Work W)
  finish core req s =
      let (success, msg, handled) = answer core.deny_by_default req.result in
      let stdout = s.stdout ++ response req.channel success msg in
      let posted : Result (Work W) = (do
        (req', w') ← run_post_handlers core.plugins req s.state
        ok (record { stdout = stdout; state = w' })) in
      if handled && not req.skip_post_handle_request
      then posted
      else ok (record { stdout = stdout; state = s.state })

  -- A request whose address is known, up to the label `endrequest`.
  unfoldable pub dispatch : Core W → Request → Work W → Result (Work W)
  dispatch core req s = do
    (req', w) ← run_handlers core.plugins req s.state
    finish core req' (record s { state = w })

  -- A line whose channel and address text are read.
  unfoldable pub handle_address : Core W → ℕ → Bytes → Work W → Result (Work W)
  handle_address core channel str s =
      let sockaddr = resolve core.have_ipv6 core.pton str in
      let invalid = response channel false (some (codes "Valid IP address expected")) in
      if is_unspec sockaddr
      then ok (record s { stdout = s.stdout ++ invalid })
      else dispatch core (new_request channel str sockaddr) s

  -- One line, from `sscanf` to `endrequest`.
  unfoldable pub handle_line : Core W → Mem → Work W → Result (Work W)
  handle_line core line s = do
    t ← c_string line
    let (channel, str) = scan_request (word_width core.have_ipv6) t
    handle_address core channel str s

  -- The hooks that are called with no request, over all plugins.
  unfoldable pub call_hooks : (Plugin W → Option (W → Result W)) → List (Plugin W) → W → Result W
  call_hooks hook [] w = ok w
  call_hooks hook (p ∷ ps) w = elim (hook p) [
    | none ↦ call_hooks hook ps w
    | some f ↦ do w' ← f w; call_hooks hook ps w'
  ]

  -- The loop over `thread_init`; the flag says that each returned 0.
  unfoldable pub init_thread : List (Plugin W) → W → Result (Bool × W)
  init_thread [] w = ok (true, w)
  init_thread (p ∷ ps) w = elim p.thread_init [
    | none ↦ init_thread ps w
    | some f ↦ do (done, w') ← f w; elim done [ true ↦ init_thread ps w' | false ↦ ok (false, w') ]
  ]

  -- The loop over the job queue, on what it gives this thread; a NULL ends the thread. The rest of
  -- the jobs is for others; the flag is false for a thread that waits for the next one.
  unfoldable pub work :
      Core W → List (Option Mem) → Work W → Result (Work W × List (Option Mem) × Bool)
  work core [] s = ok (s, [], false)
  work core (none ∷ jobs) s = ok (s, jobs, true)
  work core (some line ∷ jobs) s = do s' ← handle_line core line s; work core jobs s'

  -- The thread: its hooks, its loop, and the signal WORKER_TERMINATE that it sends at its end; the
  -- flag is false for a thread that still waits.
  unfoldable pub worker :
      Core W → List (Option Mem) → Work W → Result (Work W × List (Option Mem) × Bool)
  worker core jobs s = do
    (ready, w) ← init_thread core.plugins s.state
    (s', rest, ended) ← elim ready [
      | true ↦ work core jobs (record s { state = w })
      | false ↦ ok (record s { state = w }, jobs, true)
    ]
    let freed : Result (Work W × List (Option Mem) × Bool) = (do
      w' ← call_hooks (λ p. p.thread_free) core.plugins s'.state
      ok (record s' { state = w' }, rest, true))
    if ended then freed else ok (s', rest, false)
