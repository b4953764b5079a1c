-- ===== src/Inventory/Norm.antt =====
-- `_norm` of simple_network_dashboard/persistence.py for a device whose fields have the types of the
-- models `DeviceIn` and `CommandItem`; and Python's `strip` and slice on strings.
pub mod Twice
use Prim.Native.Char.{code}
use simple_network_dashboard.Prelude.{
  ℕ, zero, suc, String, ◌&&◌, Option, none, some, List, [], ◌∷◌, if◌then◌else◌, string_eq, nat_eq,
  ◌==◌,
}
use simple_network_dashboard.Text.{is_space}
use simple_network_dashboard.Device.{Command, Device}

-- `s.lstrip()`
unfoldable pub lstrip : String → String
lstrip String.[] = String.[]
lstrip (String.◌∷◌ c s) = let rest = lstrip s in if is_space (code c) then rest else String.◌∷◌ c s

unfoldable pub rstrip : String → String
rstrip String.[] = String.[]
rstrip (String.◌∷◌ c s) =
    let rest = rstrip s in if is_space (code c) && rest == "" then String.[] else String.◌∷◌ c rest

-- `s.strip()`
unfoldable pub strip : String → String
strip s = rstrip (lstrip s)

-- `s[:n]`
unfoldable pub prefix : ℕ → String → String
prefix zero s = String.[]
prefix (suc n) String.[] = String.[]
prefix (suc n) (String.◌∷◌ c s) = String.◌∷◌ c (prefix n s)

-- what the loop appends for one command
unfoldable pub norm_command : Command → Option Command
norm_command c =
    let cmd = strip c.command in
    if cmd == ""
    then none
    else some (record {
      name = strip (if c.name == "" then prefix 24 cmd else c.name);
      command = cmd;
      sudo = c.sudo;
      confirm = strip c.confirm;
    })

unfoldable pub norm_commands : List Command → List Command
norm_commands [] = []
norm_commands (c ∷ cs) = elim (norm_command c) [
  | none ↦ norm_commands cs
  | some d ↦ d ∷ norm_commands cs
]

-- `_norm`
unfoldable pub norm : Device → Device
norm d = record d {
  commands = norm_commands d.commands;
  metrics_port = if d.metrics_port == 0 then 9100 else d.metrics_port;
}
