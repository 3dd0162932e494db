-- ===== src/Settings/Target.antt =====
-- src/config_file.rs, `Target`: the endpoints of a configuration, from its list or from ZooKeeper. The
-- resolver of names and the client of ZooKeeper are a parameter.
use rpc_perf.Base.{Option, none, some, List, [], ◌∷◌, ◌++◌, get_elem?}
use rpc_perf.Base.Bytes.{Bytes, codes}
use rpc_perf.Base.Outcome.{Outcome, ret, ◌>>=◌}
use rpc_perf.Base.Text.{split_at}

-- `to_socket_addrs`; `connect`, `get_children`, and `get_data` with its `unwrap`s, which give the
-- texts of the fields "host" and "port" under "additionalEndpoints" and a name.
pub record Directory (Addr : Type 0) : Type 1 where
  pub resolve : Bytes → Option (List Addr)
  pub Client : Type 0
  pub connect : Bytes → Outcome Client
  pub get_children : Client → Bytes → Outcome (List Bytes)
  pub get_data : Client → Bytes → Bytes → Outcome (Bytes × Bytes)

pub record Target : Type 0 where
  pub endpoints : List Bytes
  pub zk_path : Option Bytes
  pub zk_server : Option Bytes
  pub zk_endpoint_name : Option Bytes

module _ {Addr : Type 0} (directory : Directory Addr) where
  first : Option (List Addr) → List Addr → List Addr
  first none found = found
  first (some []) found = found
  first (some (addr ∷ addrs)) found = found ++ (addr ∷ [])

  -- The first address of a host, if there is one, is pushed.
  resolved : Bytes → List Addr → List Addr
  unfolding first
  resolved host found = first (directory.resolve host) found

  push_host : Option Bytes → Bytes → List Addr → List Addr
  unfolding resolved
  push_host none port found = found
  push_host (some host) port found = resolved (host ++ (codes ":" ++ port)) found

  zk_children : directory.Client → Bytes → Bytes → List Bytes → List Addr → Outcome (List Addr)
  unfolding push_host
  zk_children zk path name [] found = ret found
  zk_children zk path name (child ∷ children) found = do
    (host, port) ← directory.get_data zk (path ++ (codes "/" ++ child)) name
    zk_children zk path name children (push_host (get_elem? (split_at b'"' host) 1) port found)

  zk_endpoints : Bytes → Bytes → Bytes → Outcome (List Addr)
  unfolding zk_children
  zk_endpoints path server name = do
    zk ← directory.connect server
    children ← directory.get_children zk path
    zk_children zk path name children []

  listed : List Bytes → List Addr → List Addr
  unfolding resolved
  listed [] found = found
  listed (host ∷ hosts) found = listed hosts (resolved host found)

  by_zk : Option Bytes → Option Bytes → Option Bytes → List Bytes → Outcome (List Addr)
  unfolding zk_endpoints listed
  by_zk (some path) (some server) (some name) hosts = zk_endpoints path server name
  by_zk none server name hosts = ret (listed hosts [])
  by_zk (some path) none name hosts = ret (listed hosts [])
  by_zk (some path) (some server) none hosts = ret (listed hosts [])

  unfoldable pub endpoints : Target → Outcome (List Addr)
  unfolding by_zk
  endpoints t = by_zk t.zk_path t.zk_server t.zk_endpoint_name t.endpoints
