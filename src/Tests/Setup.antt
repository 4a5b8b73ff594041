-- ===== src/Tests/Setup.antt =====
-- The server over the etcd adapter on the small cluster and the small machine.
use hambone.Base.{String, true, false, List, [], ◌∷◌}
use hambone.Go.{Unit₀}
use hambone.Pb.{Instance}
use hambone.Sys.{Os}
use hambone.State.Receiver.{World, machine}
use hambone.Etcd.Updater.{WriterCall}
use hambone.Etcd.Engine.{Settings}
use hambone.Etcd.Server.{etcd_server}
use hambone.Instances.Requests.{Server}
use hambone.Instances.Requests.Apply.{start}
use hambone.Tests.Cluster.{Store, cluster}
use hambone.Tests.Machine.{Box, box_os, new_box, broken_box, no_items}

abbrev pub settings : Settings
settings = record { working_dir = "."; endpoints_string = "" }

abbrev pub TestWorld : Type 0
TestWorld = World Store Box (List String)

abbrev pub os : Os TestWorld
os = machine box_os

-- The server, with kubectl.
abbrev pub server : Server TestWorld
server = etcd_server cluster box_os settings "instances" "templates" false true

abbrev pub empty_world : TestWorld
empty_world = record { etcd = []; os = new_box; vars = [] }

-- A cluster that holds "web" and a machine on which kubectl fails.
abbrev pub broken_world : TestWorld
broken_world = record {
  etcd = record { key = "hambone_instance_web"; value = "x" } ∷ [];
  os = broken_box;
  vars = [];
}

abbrev pub call_of : Instance → TestWorld → WriterCall Store Box Unit₀
call_of instance w = start os no_items server instance w

-- A cluster that holds "web", and a machine on which kubectl works.
abbrev pub full_world : TestWorld
full_world = record broken_world { os = new_box }
