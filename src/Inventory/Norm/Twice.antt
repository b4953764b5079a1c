-- ===== src/Inventory/Norm/Twice.antt =====
-- Normalising a device a second time, as when simple_network_dashboard/persistence.py reads back what
-- it has saved.
use Prim.Native.Char.{Char, code}
use simple_network_dashboard.Prelude.{
  String, ◌≡◌, refl, ap, ◌⊎◌, inl, inr, false, ◌&&◌, some, List, [], ◌∷◌, arith, eq_iff,
  if◌then◌else◌, Bool-cases, Option-cases, if_elim, All, string_eq, nat_eq, ◌==◌,
}
use simple_network_dashboard.Text.{is_space}
use simple_network_dashboard.Device.{Command, Device}
use simple_network_dashboard.Inventory.Norm.{
  lstrip, rstrip, strip, prefix, norm_command, norm_commands, norm,
}

-- a text that is empty or begins with no space
IsLeft : String → Type 0
IsLeft s =
    (s ≡ String.[])
    ⊎ ((c : Char) × (t : String) × (s ≡ String.◌∷◌ c t) × (is_space (code c) ≡ false))

lstrip-IsLeft : (s : String) → IsLeft (lstrip s)
unfolding lstrip IsLeft
lstrip-IsLeft String.[] = inl refl
lstrip-IsLeft (String.◌∷◌ c s) =
    if_elim IsLeft (is_space (code c)) _ _ (λ _. lstrip-IsLeft s) (λ t. inr (c, s, refl, t))

rstrip_twice : (s : String) → rstrip (rstrip s) ≡ rstrip s
unfolding rstrip
rstrip_twice String.[] = refl
rstrip_twice (String.◌∷◌ c s) = elim (Bool-cases (is_space (code c) && rstrip s == "")) [
  | inl t ↦ rw t (unfold rstrip in refl)
  | inr t ↦ rw t (rw (rstrip_twice s) (rw t refl))
]

rstrip-head :
    (c : Char) (t : String)
    → is_space (code c) ≡ false
    → rstrip (String.◌∷◌ c t) ≡ String.◌∷◌ c (rstrip t)
unfolding rstrip
rstrip-head c t h = rw h

lstrip-head :
    (c : Char) (t : String) → is_space (code c) ≡ false → lstrip (String.◌∷◌ c t) ≡ String.◌∷◌ c t
unfolding lstrip
lstrip-head c t h = rw h

-- a stripped text is empty or has its first code point
strip-IsLeft : (s : String) → IsLeft (strip s)
unfolding strip IsLeft
strip-IsLeft s = elim (lstrip-IsLeft s) [
  | inl e ↦ inl (rw e (unfold rstrip in refl))
  | inr (c, t, e, h) ↦ inr (c, rstrip t, rw e (rstrip-head c t h), h)
]

strip_twice : (s : String) → strip (strip s) ≡ strip s
unfolding strip IsLeft
strip_twice s = elim (strip-IsLeft s) [
  | inl e ↦ rw e (unfold lstrip rstrip in refl)
  | inr (c, t, e, h) ↦ rw e (rw (lstrip-head c t h) (rw (← e) (rstrip_twice (lstrip s))))
]

cons_ne_empty : (c : Char) (t : String) → (String.◌∷◌ c t == "") ≡ false
cons_ne_empty c t = elim (Bool-cases (String.◌∷◌ c t == "")) [
  | inl e ↦ absurd (cc ((eq_iff (String.◌∷◌ c t) "").0 e))
  | inr e ↦ e
]

-- a stripped text that is not empty still has something after a cut and another strip
strip-prefix_ne :
    (s : String) → (strip s == "") ≡ false → (strip (prefix 24 (strip s)) == "") ≡ false
unfolding IsLeft
strip-prefix_ne s n = elim (strip-IsLeft s) [
  | inl e ↦ absurd (ground (arith, n, eq_iff (strip s) ""))
  | inr (c, t, e, h) ↦ rw e (
      unfold prefix strip in
      rw (lstrip-head c (prefix 23 t) h)
        (rw (rstrip-head c (prefix 23 t) h) (cons_ne_empty c (rstrip (prefix 23 t)))))
]

-- a name that is not empty is not blank
unfoldable pub HasName : Command → Type 0
HasName c = (c.name == "") ≡ false → (strip c.name == "") ≡ false

norm_command_twice : (c d : Command) → HasName c → norm_command c ≡ some d → norm_command d ≡ some d
unfolding norm_command HasName
norm_command_twice c d named h =
    let cmd = strip c.command in
    let raw = if c.name == "" then prefix 24 cmd else c.name in
    let e : Command = record {
      name = strip raw;
      command = cmd;
      sudo = c.sudo;
      confirm = strip c.confirm;
    } in
    elim (Bool-cases (cmd == "")) [
      | inl t ↦ absurd (ground (arith, t, h))
      | inr n ↦
          let made : e ≡ d = ground (arith, n, h) in
          let has_name : (strip raw == "") ≡ false =
            if_elim (λ (x : String). (strip x == "") ≡ false) (c.name == "") _ _
              (λ _. strip-prefix_ne c.command n) (λ t. named t) in
          rw (← made) (
            rw (strip_twice c.command, strip_twice c.confirm)
              (rw (n, has_name) (rw (strip_twice raw))))
    ]

norm_commands_twice :
    (cs : List Command) → All HasName cs → norm_commands (norm_commands cs) ≡ norm_commands cs
unfolding norm_commands
norm_commands_twice [] h = refl
norm_commands_twice (c ∷ cs) h = elim (Option-cases (norm_command c)) [
  | inl n ↦ rw (n, norm_commands) (norm_commands_twice cs h.1)
  | inr (d, e) ↦
      rw (e, norm_commands)
        (rw (norm_command_twice c d h.0 e, norm_commands)
          (ap (λ ds. d ∷ ds) (norm_commands_twice cs h.1)))
]

-- Normalising a device a second time changes nothing, if no command of it has a name that is blank
-- but not empty.
pub norm-norm : (d : Device) → All HasName d.commands → norm (norm d) ≡ norm d
unfolding norm
norm-norm d h = rw (norm_commands_twice d.commands h) (ground arith)
