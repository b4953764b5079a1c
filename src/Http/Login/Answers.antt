-- ===== src/Http/Login/Answers.antt =====
-- What the answers of `login` and `logout` in simple_network_dashboard/main.py say of the state.
use simple_network_dashboard.Prelude.{
  lookup, ℕ, ◌<◌, String, ◌≡◌, refl, ◌∙◌, ◌≢◌, Bool, false, not, Option, none, some, List, [], ◌∷◌,
  arith, if_elim, option_elim, any, keep_if, string_eq, nat_eq, ◌==◌, lookup-remove, ==_refl,
}
use simple_network_dashboard.SignIn.Throttle.{Throttle, retry_after, failure, success}
use simple_network_dashboard.SignIn.Store.{
  SessionFile, Published, Returned, value, raised, sessions_of, create,
}
use simple_network_dashboard.SignIn.Store.Created.{Creates, create-Creates, Revokes, revoke-Revokes}
use simple_network_dashboard.SignIn.Store.Validity.{IsSignedIn}
use simple_network_dashboard.Ssh.Manager.{Pending, Manager, slot}
use simple_network_dashboard.Ssh.Owners.Release.{release_owner-gone}
use simple_network_dashboard.Http.Web.{Web, cancel_pending_release}
use simple_network_dashboard.Http.Login.{
  Verified, accepted, rejected, verify_raises, Outside, LoginAnswer, throttled, unavailable,
  refused, signed_in, failed, start_session, LogoutAnswer, logout_unavailable, signed_out, released,
  check_password, login, end_session, logout,
}

pub any-keep_if :
    (owner : String) (l : List String)
    → any (λ o. o == owner) (keep_if (λ o. not (o == owner)) l) ≡ false
any-keep_if owner [] = refl
any-keep_if owner (x ∷ l) = ground (arith, any-keep_if owner l)

-- nothing is left of the owner
pub record IsGone (owner : String) (w : Web) : Type 0 where
  pub no_release : any (λ o. o == owner) w.releases ≡ false
  pub no_session : (d : String) (g : ℕ) → slot w.ssh d ≡ some g → (w.ssh.heap g).owner ≢ owner
  pub no_prompt : (d : String) (p : Pending) → lookup d w.ssh.pending ≡ some p → p.owner ≢ owner

module _ (digest : String → String) where
  module _ (w : Web) (address : String) (remembered : Bool) (o : Outside) where
    -- what the throttle answers first
    abbrev pub asked : Throttle × ℕ
    asked = retry_after w.throttle address o.clock.checked.0 o.clock.checked.1

    abbrev pub counted : Throttle × ℕ
    counted =
        failure asked.0 address o.clock.failed_at.0 o.clock.failed_at.1 o.clock.failed_at.2
          o.clock.failed_at.3

    -- what each answer says
    pub IsAnswered : Web × LoginAnswer → Type 0
    IsAnswered (w', throttled n) = (n ≡ asked.1) × (0 < n) × (w' ≡ record w { throttle = asked.0 })
    IsAnswered (w', unavailable) = (asked.1 ≡ 0) × (w'.throttle ≡ asked.0)
    IsAnswered (w', refused n) =
        (asked.1 ≡ 0)
        × (o.verified ≡ rejected)
        × (n ≡ counted.1)
        × (w' ≡ record w { throttle = counted.0 })
    IsAnswered (w', signed_in t r) =
        (asked.1 ≡ 0)
        × (o.verified ≡ accepted)
        × (t ≡ o.token)
        × (r ≡ remembered)
        × (lookup address w'.throttle ≡ none)
        × (g : String) × (o.generation ≡ some g)
        × IsSignedIn digest w'.file (some t) g o.clock.created_at

    start_session-IsAnswered :
        (w' : Web) (g : String) (created : SessionFile × Returned (String × ℕ))
        → asked.1 ≡ 0
        → w'.throttle ≡ asked.0
        → o.verified ≡ accepted
        → o.generation ≡ some g
        → Creates digest o.clock.created_at g o.token created
        → IsAnswered (start_session w' address remembered created)
    unfolding start_session IsAnswered Creates success
    start_session-IsAnswered w' g (file, raised) free same v e c = (free, same)
    start_session-IsAnswered w' g (file, value (t, x)) free same v e c = (
      free,
      v,
      c.0,
      refl,
      lookup-remove address address w'.throttle ∙ rw (==_refl address) refl,
      g,
      e,
      c.1,
    )

    check_password-IsAnswered :
        asked.1 ≡ 0
        → IsAnswered (check_password digest (record w { throttle = asked.0 }) address remembered o)
    unfolding check_password failed
    check_password-IsAnswered free =
        option_elim IsAnswered o.generation _ _ (λ _. unfold IsAnswered in (free, refl))
          (λ g f. verdict g f o.verified refl)
      where
        w1 : Web
        w1 = record w { throttle = asked.0 }

        verdict :
            (g : String)
            → o.generation ≡ some g
            → (v : Verified) → o.verified ≡ v
            → IsAnswered (elim v as (λ x. Web × LoginAnswer) [
              | verify_raises ↦ (w1, unavailable)
              | rejected ↦ failed w1 address o.clock
              | accepted ↦ start_session w1 address remembered (
                  create digest w1.file o.readable o.ending g remembered o.token o.clock.created_at)
            ])
        verdict g f verify_raises e = unfold IsAnswered in (free, refl)
        verdict g f rejected e = unfold IsAnswered in (free, e, refl, refl)
        verdict g f accepted e = start_session-IsAnswered w1 g _ free refl e f (
            create-Creates digest w.file o.readable o.ending g remembered o.token
              o.clock.created_at)

    -- What each answer of `login` says. An address that has to wait is told how long, and nothing
    -- but the throttle's own clean-up is done, whatever the password. If the service is
    -- unavailable, no failure is counted. A refusal means that the password was rejected, leaves
    -- the session file as it is and counts a failure. A success means that the address need not
    -- wait and the password was accepted: the failures of the address are forgotten, and the token
    -- is on file under the current generation with its expiry ahead.
    pub login-IsAnswered : IsAnswered (login digest w address remembered o)
    unfolding login
    login-IsAnswered =
        if_elim IsAnswered (not (asked.1 == 0)) _ _
          (λ t. unfold IsAnswered in (refl, ground arith, refl))
          (λ t. check_password-IsAnswered (ground arith))

  -- what a success says of the owner, if its release raised or not
  pub IsFreed : Option Manager → String → Web → Type 0
  IsFreed none owner w = IsGone owner w
  IsFreed (some left) owner w = (any (λ o. o == owner) w.releases ≡ false) × (w.ssh ≡ left)

  pub IsSignedOut : Web → Option Manager → String → Web × LogoutAnswer → Type 0
  IsSignedOut w left token (w', signed_out) =
      (lookup (digest token) (sessions_of w'.file) ≡ none) × IsFreed left (digest token) w'
  IsSignedOut w left token (w', logout_unavailable) = (w' ≡ record w { file = w'.file })

  end_session-IsSignedOut :
      (w : Web) (left : Option Manager) (token : String) (revoked : SessionFile × Returned Unit)
      → (token == "") ≡ false
      → Revokes digest token revoked
      → IsSignedOut w left token (end_session digest w left (some token) revoked)
  unfolding end_session IsSignedOut IsFreed Revokes cancel_pending_release released
  end_session-IsSignedOut w left token (file, raised) n r = refl
  end_session-IsSignedOut w none token (file, value done) n r =
      let owner = digest token in
      let gone = release_owner-gone owner w.ssh in
      rw n (
        r,
        record {
          no_release = any-keep_if owner w.releases;
          no_session = gone.0;
          no_prompt = gone.1;
        },
      )
  end_session-IsSignedOut w (some left) token (file, value done) n r =
      rw n (r, (any-keep_if (digest token) w.releases, refl))

  -- If `logout` of a token that is not empty succeeds, the token has no record on file and no
  -- pending release of its owner is left; if the release of the owner did not raise, no session and
  -- no prompt of the owner is left, and if it raised, the SSH manager is as it left it. If `logout`
  -- fails, nothing but perhaps the session file has changed.
  pub logout-IsSignedOut :
      (w : Web) (readable : Bool) (ending : Published) (left : Option Manager) (token : String)
      → (token == "") ≡ false
      → IsSignedOut w left token (logout digest w readable ending left (some token))
  unfolding logout
  logout-IsSignedOut w readable ending left token n =
      end_session-IsSignedOut w left token _ n
        (revoke-Revokes digest w.file readable ending token n)
