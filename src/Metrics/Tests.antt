-- ===== src/Metrics/Tests.antt =====
-- Runs of simple_network_dashboard/metrics_poller.py, and its theorems at concrete inputs.
-- two exported samples; the label of the first holds a quote, a line feed and a brace
use simple_network_dashboard.Prelude.{
  lookup, insert, ℕ, ◌+◌, ◌-◌, ◌*◌, ◌/◌, String, ◌≡◌, refl, Bool, true, false, not, ◌&&◌, Option,
  none, some, List, [], ◌∷◌, map, arith, leb, if◌then◌else◌, any, All, All-mono, All-any, nat_eq,
  ◌==◌,
}
use simple_network_dashboard.Text.{
  Text, codes, text_eq, is_space, span, skip_spaces, rstrip, strip, starts_with, is_line_end,
}
use simple_network_dashboard.Metrics.Labels.{
  unescaped, unescape_from, unescape_label, is_name_start, is_name_char, take_value, after,
  separator, value_pair, match_pair_at, match_pair, block_end, parsed, parse_pairs,
  parse_label_block,
}
use simple_network_dashboard.Metrics.Labels.RoundTrip.{IsName, IsDistinct, escape_char, escape}
use simple_network_dashboard.Metrics.Labels.Termination.{IsReturned, parse_label_block-IsReturned}
use simple_network_dashboard.Metrics.Lines.{Entry, Metrics, entries, is_metric_char, parse}
use simple_network_dashboard.Metrics.Lines.RoundTrip.{
  Sample, IsSample, print_samples, samples_of, parse-print_samples,
}
use simple_network_dashboard.Metrics.Target.{
  is_bad_host_char, is_valid_host_string, Ip, is_allowed_metrics_target, Lookup, answers,
  first_allowed, resolve_metrics_hostname,
}
use simple_network_dashboard.Metrics.Fetch.{
  end_of_body, chunk, Response, reply, metrics, is_digit, decimal_from, decimal,
  check_content_length, read_body, fetch, fetch_resolved, fetch_metrics,
}
use simple_network_dashboard.Metrics.Fetch.Safety.{addresses, IsTarget, fetch_metrics-IsTarget}
use simple_network_dashboard.Metrics.Numbers.{Numbers}
use simple_network_dashboard.Metrics.Disks.{disks}
use simple_network_dashboard.Metrics.Disks.Listing.{
  ListedIn, AllDifferent, IsSorted, disks-IsListed,
}

abbrev first_sample : Sample
first_sample = record {
  name = codes "node_load1";
  labels = (codes "job", codes "a\"}\nb") ∷ (codes "zone", codes "x, y") ∷ [];
  value = codes "0.5";
}

abbrev second_sample : Sample
second_sample = record { name = codes "up"; labels = []; value = codes "1" }

-- numbers are kept as they are written
abbrev as_written : Text → Option Text
as_written t = some t

abbrev any_int : Text → Bool
any_int t = true

abbrev two_samples : List (Sample × Text)
two_samples = (first_sample, codes "0.5") ∷ (second_sample, codes "1") ∷ []

All-pass :
    (p : ℕ → Bool) (t : Text) → any (λ c. not (p c)) t ≡ false → All (λ (c : ℕ). p c ≡ true) t
All-pass p t h = All-mono _ _ t (λ c k. ground arith) (All-any (λ c. not (p c)) t h)

first_sample-IsSample : IsSample first_sample
unfolding is_metric_char is_space is_line_end starts_with IsName IsDistinct is_name_char
    is_name_start escape escape_char lookup
first_sample-IsSample = record {
  name_ne_nil = refl;
  name_chars = All-pass is_metric_char (codes "node_load1") refl;
  not_comment = refl;
  label_names = (
    (refl, All-pass is_name_char (codes "job") refl),
    ((refl, All-pass is_name_char (codes "zone") refl), tt),
  );
  label_values = (
    All-any is_line_end (escape (codes "a\"}\nb")) refl,
    (All-any is_line_end (codes "x, y") refl, tt),
  );
  distinct = (refl, (refl, tt));
  value_ne_nil = refl;
  value_chars = All-any is_space (codes "0.5") refl;
}

second_sample-IsSample : IsSample second_sample
unfolding is_metric_char is_space is_line_end starts_with IsName IsDistinct
second_sample-IsSample = record {
  name_ne_nil = refl;
  name_chars = All-pass is_metric_char (codes "up") refl;
  not_comment = refl;
  label_names = tt;
  label_values = tt;
  distinct = tt;
  value_ne_nil = refl;
  value_chars = All-any is_space (codes "1") refl;
}

parse-print_samples_example :
    entries
      (codes "up")
      (parse as_written any_int (print_samples (map (λ (p : Sample × Text). p.0) two_samples)))
    ≡ samples_of (codes "up") two_samples
parse-print_samples_example =
    parse-print_samples as_written any_int two_samples (codes "up")
      ((first_sample-IsSample, refl), ((second_sample-IsSample, refl), tt))

parse_label_block-IsReturned_example :
    IsReturned
      (codes "a=\"x\\\"\", b = \"y\" ,} 1")
      (parse_label_block (codes "a=\"x\\\"\", b = \"y\" ,} 1"))
parse_label_block-IsReturned_example =
    parse_label_block-IsReturned (codes "a=\"x\\\"\", b = \"y\" ,} 1")

parse_label_block_run :
    parse_label_block (codes "a=\"x\\\"\", b = \"y\" ,} 1")
    ≡ parsed ((codes "a", codes "x\"") ∷ (codes "b", codes "y") ∷ []) (codes " 1")
unfolding parse_label_block parse_pairs block_end match_pair match_pair_at value_pair separator
    after take_value is_name_char is_name_start unescape_label unescape_from unescaped insert span
    skip_spaces is_space
parse_label_block_run = refl

abbrev ordinary : Ip
ordinary = record {
  is_loopback = false;
  is_link_local = false;
  is_multicast = false;
  is_unspecified = false;
  is_reserved = false;
  is_v6 = false;
}

-- two addresses that parse
abbrev two_addresses : Text → Option Ip
two_addresses t =
    if t == codes "10.0.0.5"
    then some ordinary
    else if t == codes "127.0.0.1"
    then some (record ordinary { is_loopback = true })
    else none

abbrev found : Lookup
found = answers (codes "127.0.0.1" ∷ codes "10.0.0.5" ∷ [])

abbrev small_response : Response
small_response = record {
  error_status = none;
  content_length = some (codes "4");
  body = chunk (codes "up") (chunk (codes " 1") end_of_body);
}

abbrev same_text : Text → Text
same_text t = t

fetch_metrics_run :
    fetch_metrics same_text two_addresses (codes "nas") found (reply small_response)
    ≡ (some (codes "10.0.0.5"), metrics (codes "up 1"))
unfolding fetch_metrics fetch_resolved fetch read_body check_content_length is_digit decimal
    decimal_from resolve_metrics_hostname first_allowed is_allowed_metrics_target
    is_valid_host_string is_bad_host_char strip rstrip skip_spaces is_space
fetch_metrics_run = refl

fetch_metrics-IsTarget_example :
    IsTarget two_addresses
      (codes "nas" ∷ addresses found)
      (fetch_metrics same_text two_addresses (codes "nas") found (reply small_response)).0
fetch_metrics-IsTarget_example =
    fetch_metrics-IsTarget same_text two_addresses (codes "nas") found (reply small_response)

abbrev naturals : Numbers
naturals = record {
  Number = ℕ;
  of_nat = λ n. n;
  add = λ a b. a + b;
  sub = λ a b. a - b;
  mul = λ a b. a * b;
  div = λ a b. a / b;
  round = λ a n. a;
  le = leb;
  is_zero = λ a. a == 0;
}

abbrev ascii_digit : ℕ → Bool
ascii_digit c = leb 48 c && leb c 57

abbrev size_of : String → String → ℕ → Entry ℕ
size_of mount device n = record {
  labels = (codes "mountpoint", codes mount) ∷ (codes "device", codes device) ∷ [];
  value = n;
}

abbrev sizes : Metrics ℕ
sizes =
    (
      codes "node_filesystem_size_bytes",
      size_of "/snap" "/dev/loop0" 7
          ∷ size_of "/home" "/dev/sda2" 9
          ∷ size_of "/" "/dev/sda1" 8
          ∷ size_of "/home" "/dev/sda3" 4
          ∷ [],
    )
    ∷ []

disks-IsListed_example :
    All
      (ListedIn naturals ascii_digit (entries (codes "node_filesystem_size_bytes") sizes))
      (disks naturals ascii_digit sizes)
    × AllDifferent naturals ascii_digit (disks naturals ascii_digit sizes)
    × IsSorted naturals ascii_digit (disks naturals ascii_digit sizes)
disks-IsListed_example = disks-IsListed naturals ascii_digit sizes
