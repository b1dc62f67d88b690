-- ===== src/Worker/Contract.antt =====
-- What the plugins owe to worker of src/core/main.c, and the worker to them.
use squid_helper.Base.{ℕ, ◌≢◌, ◌≤◌, Option, All, length}
use squid_helper.Memory.{Bytes}
use squid_helper.Types.{Request, HandlerStatus, unspec}
use squid_helper.Worker.{Core, resolve, new_request, word_width}
use squid_helper.Worker.Consult.{Keeps}

-- `Inv` holds of the plugins' state between requests, `During` of a request and the state while it is
-- handled: from a text that is an address and no longer than the line may hold, on through the hooks.
pub record Contract {W : Type 0} (core : Core W) : Type 1 where
  pub Inv : W → Type 0
  pub During : Request → W → Type 0
  pub enters :
      (channel : ℕ) (str : Bytes) (w : W)
      → Inv w
      → length str ≤ word_width core.have_ipv6
      → resolve core.have_ipv6 core.pton str ≢ unspec
      → During (new_request channel str (resolve core.have_ipv6 core.pton str)) w
  pub leaves : (req : Request) (w : W) → During req w → Inv w
  pub set_result :
      (req : Request) (w : W) (r : Option HandlerStatus)
      → During req w
      → During (record req { result = r }) w
  pub hooks : All (Keeps During) core.plugins
