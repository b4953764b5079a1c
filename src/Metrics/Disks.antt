-- ===== src/Metrics/Disks.antt =====
-- The disks of `extract_metrics` in simple_network_dashboard/metrics_poller.py. Whether a code point
-- is a decimal digit of Unicode is a parameter.
pub mod Listing
use simple_network_dashboard.Prelude.{
  lookup, ℕ, ◌^◌, String, Bool, true, false, ◌&&◌, ◌||◌, Option, none, some, List, [], ◌∷◌, map,
  ltb, if◌then◌else◌, take, drop, any, nat_eq, ◌==◌,
}
use simple_network_dashboard.Text.{Text, codes, text_eq, starts_with}
use simple_network_dashboard.Metrics.Labels.{Labels}
use simple_network_dashboard.Metrics.Lines.{Entry, Metrics, entries}
use simple_network_dashboard.Metrics.Numbers.{Numbers}

-- `_EXCLUDE_FS`
exclude_fs : List Text
exclude_fs = map codes (
    "tmpfs" ∷ "devtmpfs" ∷ "squashfs" ∷ "overlay" ∷ "ramfs" ∷ "proc" ∷ "sysfs" ∷ "cgroup"
    ∷ "cgroup2" ∷ "devpts" ∷ "mqueue" ∷ "hugetlbfs" ∷ "pstore" ∷ "securityfs" ∷ "debugfs"
    ∷ "tracefs" ∷ "configfs" ∷ "fusectl" ∷ "bpf" ∷ "nsfs" ∷ "efivarfs" ∷ [])

pub is_excluded_fs : Text → Bool
is_excluded_fs fs = any (λ t. t == fs) exclude_fs

-- a match of `^/dev/loop\d+`
pub is_loop_device : (ℕ → Bool) → Text → Bool
is_loop_device is_decimal device =
    starts_with device (codes "/dev/loop") && any is_decimal (take 1 (drop 9 device))

-- `lbl.get(name, "")`
abbrev pub label : String → Labels → Text
label name ls = elim (lookup (codes name) ls) [ none ↦ [] | some v ↦ v ]

-- whether `lbl.get(name)` is this text
abbrev pub has_label : String → Text → Labels → Bool
has_label name v ls = elim (lookup (codes name) ls) [ none ↦ false | some w ↦ w == v ]

-- `s <= t`, by code points
unfoldable pub text_le : Text → Text → Bool
text_le [] t = true
text_le (a ∷ s) [] = false
text_le (a ∷ s) (b ∷ t) = ltb a b || a == b && text_le s t

module _ (num : Numbers) (is_decimal : ℕ → Bool) where
  open num use {Number, of_nat, sub, mul, div, round, le}

  pub record DiskUse : Type 0 where
    pub mount : Text
    pub device : Text
    pub total_gb : Number
    pub used_gb : Number
    pub percent : Number

  -- `avail_map.get((device, mountpoint), 0)`: the last entry counts
  pub available : List (Entry Number) → Text → Text → Option Number
  available [] device mount = none
  available (e ∷ es) device mount = elim (available es device mount) [
    | some v ↦ some v
    | none ↦
        if has_label "device" device e.labels && has_label "mountpoint" mount e.labels
        then some e.value
        else none
  ]

  pub gigabytes : Number → Number
  gigabytes x = round (div x (of_nat (1024 ^ 3))) 1

  pub disk_of : List (Entry Number) → Text → Text → Number → DiskUse
  disk_of avail mount device size =
      let free : Number = elim (available avail device mount) [ none ↦ of_nat 0 | some v ↦ v ] in
      let used = sub size free in
      record {
        mount = mount;
        device = device;
        total_gb = gigabytes size;
        used_gb = gigabytes used;
        percent = round (mul (div used size) (of_nat 100)) 1;
      }

  -- the loop over the sizes, with `seen`
  pub disks_from : List (Entry Number) → List Text → List (Entry Number) → List DiskUse
  disks_from avail seen [] = []
  disks_from avail seen (e ∷ es) =
      let mount = label "mountpoint" e.labels in
      let device = label "device" e.labels in
      let skips =
        is_excluded_fs (label "fstype" e.labels)
        || any (λ m. m == mount) seen
        || is_loop_device is_decimal device in
      let rest = disks_from avail (if skips then seen else mount ∷ seen) es in
      if skips || le e.value (of_nat 0) then rest else disk_of avail mount device e.value ∷ rest

  -- the order of the sort key
  pub disk_le : DiskUse → DiskUse → Bool
  disk_le a b =
      if a.mount == codes "/"
      then true
      else if b.mount == codes "/"
      then false
      else text_le a.mount b.mount

  -- a stable sort
  pub insert_disk : DiskUse → List DiskUse → List DiskUse
  insert_disk d [] = d ∷ []
  insert_disk d (x ∷ xs) =
      let rest = insert_disk d xs in if disk_le d x then d ∷ x ∷ xs else x ∷ rest

  pub sort_disks : List DiskUse → List DiskUse
  sort_disks [] = []
  sort_disks (d ∷ ds) = insert_disk d (sort_disks ds)

  pub disks : Metrics Number → List DiskUse
  disks m = sort_disks (
      disks_from (entries (codes "node_filesystem_avail_bytes") m) []
        (entries (codes "node_filesystem_size_bytes") m))
