-- ===== src/Inventory/Tests.antt =====
-- A deletion, and an instance of the theorem on deletions. The text of a list is the list itself.
use simple_network_dashboard.Prelude.{
  String, ◌≡◌, refl, true, false, none, some, List, [], ◌∷◌, arith, All, string_eq, nat_eq,
}
use simple_network_dashboard.Text.{is_space}
use simple_network_dashboard.Device.{Command, Device}
use simple_network_dashboard.Storage.{holds, durable, not_written}
use simple_network_dashboard.Sockets.{Frame, new_sockets}
use simple_network_dashboard.Ssh.Manager.{new_manager}
use simple_network_dashboard.Inventory.{App, delete_device}
use simple_network_dashboard.Inventory.Deletion.{IsDeleted, delete_device-IsDeleted}
use simple_network_dashboard.Inventory.Norm.{
  lstrip, rstrip, strip, prefix, norm_command, norm_commands, norm,
}
use simple_network_dashboard.Inventory.Norm.Twice.{HasName, norm-norm}
use simple_network_dashboard.Inventory.Changes.{DeviceIn}
use simple_network_dashboard.Inventory.Ids.{
  ChangeRequest, upsert, recommand, delete, serve_all, IsFresh, AllFresh, serve_all-IsInventory,
}
use simple_network_dashboard.Inventory.Listing.{ids, AllDiffer, IsInventory}

abbrev device : String → Device
device id = record {
  id = id;
  name = "Router";
  host = "192.0.2.1";
  username = "admin";
  metrics_port = 9100;
  commands = [];
}

abbrev app : App (List Device)
app = record {
  storage = record {
    disk = record { primary = holds (device "d1" ∷ []); backup = holds (device "d1" ∷ []) };
    cache = device "d1" ∷ device "d2" ∷ [];
    recovery_mode = false;
  };
  kept = none;
  storage_warning = false;
  sockets = new_sockets;
  ssh = new_manager;
}

abbrev told : List Device → Frame
told devices = record { body = []; check = none }

abbrev itself : List Device → List Device
itself devices = devices

delete_device-IsDeleted_example :
    IsDeleted some itself "d1" app
      (delete_device some itself app "d1" durable durable told).0
      (delete_device some itself app "d1" durable durable told).1
delete_device-IsDeleted_example = delete_device-IsDeleted some itself "d1" app durable durable told

abbrev incoming : DeviceIn
incoming = record {
  id = none;
  name = "Switch";
  host = "192.0.2.9";
  username = "admin";
  metrics_port = 9100;
  commands = none;
}

abbrev requests : List (ChangeRequest some itself told)
requests =
    upsert incoming "d3" durable durable
    ∷ recommand "d2" [] durable not_written
    ∷ delete "d1" durable durable
    ∷ []

cache-IsInventory : IsInventory app.storage.cache
unfolding ids AllDiffer
cache-IsInventory = record { few = omega arith; differ = (refl, (refl, tt)) }

requests-AllFresh : AllFresh some itself told app requests
unfolding AllFresh IsFresh ids
requests-AllFresh = (refl, (tt, (tt, tt)))

serve_all-IsInventory_example : IsInventory (serve_all some itself told app requests).storage.cache
serve_all-IsInventory_example =
    serve_all-IsInventory some itself told app requests cache-IsInventory requests-AllFresh

abbrev reboot : Command
reboot = record { name = ""; command = " sudo reboot "; sudo = true; confirm = "Sure? " }

abbrev with_reboot : Device
with_reboot = record (device "d1") { commands = reboot ∷ [] }

reboot-HasName : All HasName with_reboot.commands
unfolding HasName
reboot-HasName = ((λ h. absurd (cc h)), tt)

norm-norm_example : norm (norm with_reboot) ≡ norm with_reboot
norm-norm_example = norm-norm with_reboot reboot-HasName

norm_run : norm with_reboot ≡ record with_reboot {
  commands =
      record { name = "sudo reboot"; command = "sudo reboot"; sudo = true; confirm = "Sure?" } ∷ [];
}
unfolding norm norm_commands norm_command strip lstrip rstrip prefix is_space
norm_run = refl
