-- ===== src/ActiveDirectory/Open.antt =====
-- webcontrol_activedirectory_thread_init and webcontrol_activedirectory_ldap_open: when a thread has
-- its connection.
use squid_helper.Base.{ℕ, ◌≡◌, refl, true, false, Bool, Option, none, some, ap}
use squid_helper.Memory.{Bytes, Result, ok}
use squid_helper.ActiveDirectory.{
  on_uri, on_initialize, on_bind_result, on_bind, ldap_open, activedirectory_thread_init, Ldap,
  Directory,
}

module _ (ldap : Ldap) where
  -- What a thread has after its init function: no connection that it had not before, or the one that
  -- was opened under the configured name and bound.
  pub data Opened (s : Directory ldap) (r : Result (Bool × Directory ldap)) : Type 0 where
    refused :
        (s' : Directory ldap)
        → r ≡ ok (false, s')
        → s'.handle ≡ s.handle
        → s'.config ≡ s.config
        → Opened s r
    bound :
        (uri : Bytes) (con : ldap.Con) (net : ldap.Net) (id : ℕ) (net' : ldap.Net)
        (s' : Directory ldap)
        → s.config.uri ≡ some uri
        → ldap.initialize uri s.net ≡ (some con, net)
        → ldap.sasl_bind con s.config.bind_dn s.config.bind_password net ≡ (some id, net')
        → (ldap.bind_result con id net').0 ≡ true
        → r ≡ ok (true, s')
        → s'.handle ≡ some con
        → s'.config ≡ s.config
        → Opened s r

  module _ (s : Directory ldap) (uri : Bytes) (u : s.config.uri ≡ some uri) (con : ldap.Con)
      (net : ldap.Net) (i : ldap.initialize uri s.net ≡ (some con, net)) where
    bind_result-Opened :
        (id : ℕ) (net' : ldap.Net) (r : Bool × ldap.Net)
        → ldap.sasl_bind con s.config.bind_dn s.config.bind_password net ≡ (some id, net')
        → ldap.bind_result con id net' ≡ r
        → Opened s (ok (on_bind_result ldap con r s))
    unfolding on_bind_result
    bind_result-Opened id net' (true, net'') b r =
        bound uri con net id net' (record s { handle = some con; net = net'' }) u i b
          (ap (λ q. q.0) r) refl refl refl
    bind_result-Opened id net' (false, net'') b r =
        refused (record s { net = net'' }) refl refl refl

    bind-Opened :
        (r : Option ℕ × ldap.Net)
        → ldap.sasl_bind con s.config.bind_dn s.config.bind_password net ≡ r
        → Opened s (ok (on_bind ldap con r s))
    unfolding on_bind
    bind-Opened (none, net') b = refused (record s { net = net' }) refl refl refl
    bind-Opened (some id, net') b = bind_result-Opened id net' (ldap.bind_result con id net') b refl

  initialize-Opened :
      (s : Directory ldap) (uri : Bytes) (r : Option ldap.Con × ldap.Net)
      → s.config.uri ≡ some uri
      → ldap.initialize uri s.net ≡ r
      → Opened s (ok (on_initialize ldap r s))
  unfolding on_initialize
  initialize-Opened s uri (none, net) u i = refused (record s { net = net }) refl refl refl
  initialize-Opened s uri (some con, net) u i = bind-Opened s uri u con net i _ refl

  uri-Opened :
      (s : Directory ldap) (o : Option Bytes) → s.config.uri ≡ o → Opened s (ok (on_uri ldap o s))
  unfolding on_uri
  uri-Opened s none u = refused s refl refl refl
  uri-Opened s (some uri) u = initialize-Opened s uri (ldap.initialize uri s.net) u refl

  -- The init function of a thread always returns. Where it succeeds, a name was configured, a
  -- connection was initialised for that name, the bind with the configured account was sent and
  -- answered, and the thread has this connection. Where it fails, the thread has what it had
  -- before. The configuration stays as it was.
  pub thread_init-Opened : (s : Directory ldap) → Opened s (activedirectory_thread_init ldap s)
  unfolding activedirectory_thread_init ldap_open
  thread_init-Opened s = uri-Opened s s.config.uri refl
