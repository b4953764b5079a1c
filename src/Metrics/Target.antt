-- ===== src/Metrics/Target.antt =====
-- Which hosts simple_network_dashboard/metrics_poller.py polls. What the `ipaddress` module of Python
-- says of an address is a record of its properties, and its parser a parameter.
use simple_network_dashboard.Prelude.{
  ℕ, Bool, not, ◌&&◌, ◌||◌, Option, none, some, List, [], ◌∷◌, ltb, leb, if◌then◌else◌, length,
  is_nil, any, nat_eq, ◌==◌,
}
use simple_network_dashboard.Text.{Text, text_eq, is_space, strip}

abbrev pub max_host_length : ℕ
max_host_length = 253

unfoldable pub is_bad_host_char : ℕ → Bool
is_bad_host_char c = is_space c || ltb c 0x20 || c == 0x7f

-- `is_valid_host_string`
unfoldable pub is_valid_host_string : Text → Bool
is_valid_host_string host =
    not (is_nil host || is_nil (strip host))
    && leb (length host) max_host_length
    && not (any is_bad_host_char host)

-- an address, as `ipaddress.ip_address` returns it
pub record Ip : Type 0 where
  pub is_loopback : Bool
  pub is_link_local : Bool
  pub is_multicast : Bool
  pub is_unspecified : Bool
  pub is_reserved : Bool
  pub is_v6 : Bool

-- `is_allowed_metrics_target` of an address that parses
unfoldable pub is_allowed_metrics_target : Ip → Bool
is_allowed_metrics_target ip =
    not
      (ip.is_loopback || ip.is_link_local || ip.is_multicast || ip.is_unspecified || ip.is_reserved)

-- how `getaddrinfo` ends: with `gaierror`, with another exception, or with addresses
pub data Lookup : Type 0 where
  gaierror other_error : Lookup
  answers : List Text → Lookup

-- how `_resolve_metrics_hostname` ends: it raises, or returns an address or `None`
pub data Resolved : Type 0 where
  not_resolved raises : Resolved
  target : Option Text → Resolved

module _ (ip_address : Text → Option Ip) where
  -- the loop over the addresses
  unfoldable pub first_allowed : List Text → Resolved
  first_allowed [] = target none
  first_allowed (a ∷ rest) =
      let later = first_allowed rest in
      elim (ip_address a) [
        | none ↦ raises
        | some ip ↦ if is_allowed_metrics_target ip then target (some a) else later
      ]

  unfoldable pub resolve_metrics_hostname : Lookup → Resolved
  resolve_metrics_hostname gaierror = not_resolved
  resolve_metrics_hostname other_error = raises
  resolve_metrics_hostname (answers []) = not_resolved
  resolve_metrics_hostname (answers (a ∷ rest)) = first_allowed (a ∷ rest)
