-- ===== src/Metrics/Fetch/Safety.antt =====
-- What `fetch_metrics` of simple_network_dashboard/metrics_poller.py contacts, and how much of an
-- answer it takes.
-- one of the texts of a list
use simple_network_dashboard.Prelude.{
  ◌≡◌, refl, ◌⊎◌, inl, inr, true, false, not, Option, none, some, List, [], ◌∷◌, ◌++◌, arith,
  if_elim, option_elim, nat_eq,
}
use simple_network_dashboard.Text.{Text}
use simple_network_dashboard.Metrics.Target.{
  is_valid_host_string, Ip, is_allowed_metrics_target, Lookup, gaierror, other_error, answers,
  Resolved, not_resolved, raises, target, first_allowed, resolve_metrics_hostname,
}
use simple_network_dashboard.Metrics.Fetch.{
  Exn, Stream, end_of_body, breaks, chunk, Reply, blocked, Fetched, metrics, error, handle, fetch,
  fetch_resolved, fetch_metrics,
}

pub IsAmong : Text → List Text → Type 0
IsAmong a [] = ⊥
IsAmong a (b ∷ rest) = (a ≡ b) ⊎ IsAmong a rest

pub addresses : Lookup → List Text
addresses (answers found) = found
addresses _ = []

-- none of the kinds of address that are never polled
pub record IsOrdinary (ip : Ip) : Type 0 where
  pub not_loopback : ip.is_loopback ≡ false
  pub not_link_local : ip.is_link_local ≡ false
  pub not_multicast : ip.is_multicast ≡ false
  pub not_unspecified : ip.is_unspecified ≡ false
  pub not_reserved : ip.is_reserved ≡ false

allowed-IsOrdinary : (ip : Ip) → is_allowed_metrics_target ip ≡ true → IsOrdinary ip
unfolding is_allowed_metrics_target
allowed-IsOrdinary ip h = record {
  not_loopback = ground arith;
  not_link_local = ground arith;
  not_multicast = ground arith;
  not_unspecified = ground arith;
  not_reserved = ground arith;
}

-- the bytes that arrive, and what breaks the body off
pub bytes_of : Stream → Text
bytes_of (chunk bytes more) = bytes ++ bytes_of more
bytes_of _ = []

pub broken_by : Stream → Option Exn
broken_by end_of_body = none
broken_by (breaks e) = some e
broken_by (chunk bytes more) = broken_by more

module _ (ip_address : Text → Option Ip) where
  -- the address is ordinary, and one of these
  pub IsTarget : List Text → Option Text → Type 0
  IsTarget found none = Unit
  IsTarget found (some a) = IsAmong a found × (ip : Ip) × (ip_address a ≡ some ip) × IsOrdinary ip

  abbrev ResolvesIn : List Text → Resolved → Type 0
  ResolvesIn found (target t) = IsTarget found t
  ResolvesIn found _ = Unit

  weaken :
      (a : Text) (found : List Text) (r : Resolved) → ResolvesIn found r → ResolvesIn (a ∷ found) r
  unfolding IsTarget IsAmong
  weaken a found (target none) h = tt
  weaken a found (target (some b)) h = (inr h.0, h.1, h.2, h.3)
  weaken a found not_resolved h = tt
  weaken a found raises h = tt

  first_allowed-ResolvesIn : (found : List Text) → ResolvesIn found (first_allowed ip_address found)
  unfolding first_allowed IsTarget IsAmong
  first_allowed-ResolvesIn [] = tt
  first_allowed-ResolvesIn (a ∷ rest) =
      option_elim (ResolvesIn (a ∷ rest)) (ip_address a) _ _ (λ _. tt)
        (λ ip e.
          if_elim (ResolvesIn (a ∷ rest)) (is_allowed_metrics_target ip) _ _
            (λ t. (inl refl, ip, e, allowed-IsOrdinary ip t))
            (λ _. weaken a rest _ (first_allowed-ResolvesIn rest)))

  resolve-ResolvesIn :
      (found : Lookup) → ResolvesIn (addresses found) (resolve_metrics_hostname ip_address found)
  unfolding resolve_metrics_hostname addresses
  resolve-ResolvesIn gaierror = tt
  resolve-ResolvesIn other_error = tt
  resolve-ResolvesIn (answers []) = tt
  resolve-ResolvesIn (answers (a ∷ rest)) = first_allowed-ResolvesIn (a ∷ rest)

module _ {M : Type 0} (extract : Text → M) where
  fetch_resolved-IsTarget :
      (ip_address : Text → Option Ip) (found : List Text) (r : Reply) (t : Resolved)
      → ResolvesIn ip_address found t
      → IsTarget ip_address found (fetch_resolved extract r t).0
  unfolding fetch_resolved IsTarget
  fetch_resolved-IsTarget ip_address found r not_resolved h = tt
  fetch_resolved-IsTarget ip_address found r raises h = tt
  fetch_resolved-IsTarget ip_address found r (target none) h = tt
  fetch_resolved-IsTarget ip_address found r (target (some a)) h = h

  -- Whatever the resolver answers and however the HTTP library behaves: the only address that
  -- `fetch_metrics` contacts, if it contacts one, is the host itself or one of the resolver's
  -- answers, it parses as an address, and it is not loopback, link-local, multicast, unspecified or
  -- reserved.
  pub fetch_metrics-IsTarget :
      (ip_address : Text → Option Ip) (host : Text) (found : Lookup) (r : Reply)
      → IsTarget ip_address
          (host ∷ addresses found)
          (fetch_metrics extract ip_address host found r).0
  unfolding fetch_metrics
  fetch_metrics-IsTarget ip_address host found r =
      let all = host ∷ addresses found in
      let P = λ (x : Option Text × Fetched M). IsTarget ip_address all x.0 in
      if_elim P (not (is_valid_host_string host)) _ _ (λ _. unfold IsTarget in tt)
        (λ _.
          option_elim P (ip_address host) _ _
            (λ _.
              fetch_resolved-IsTarget ip_address all r (resolve_metrics_hostname ip_address found)
                (weaken ip_address host (addresses found) _ (resolve-ResolvesIn ip_address found)))
            (λ ip e.
              if_elim P (is_allowed_metrics_target ip) (some host, fetch extract r)
                (none, error blocked)
                (λ t. unfold IsTarget IsAmong in (inl refl, ip, e, allowed-IsOrdinary ip t))
                (λ _. unfold IsTarget in tt)))

  -- what a body of these bytes comes to
  pub outcome : Text → Option Exn → Fetched M
  outcome bytes none = metrics (extract bytes)
  outcome bytes (some e) = error (handle e)
