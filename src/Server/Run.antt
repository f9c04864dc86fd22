-- ===== src/Server/Run.antt =====
-- The life of a server in src/core/server.c: its creation, its sockets, and its end. The loops over
-- the port table go over the entries that `ht_foreach_template` meets.
use freehttpd.Base.{
  ℕ, Bool, true, false, List, [], ◌∷◌, Option, none, some, if◌then◌else◌, update, ◌>>=◌, u16,
}
use freehttpd.Htable.Table.{Keys, Alloc}
use freehttpd.Htable.Ops.{create, walk, free_with_cleanup}
use freehttpd.Server.Config.{VhostId, PortEntry, Server, Env, add_ids}
use freehttpd.Server.Socket.{Calls, Kernel, create_socket}

module _ {H : Type 0} where
  -- a round of that loop behind `fh_server_create_socket`; `rest` are the rounds that follow
  unfoldable pub keep_socket :
      (Server H → Kernel → Bool × (Server H × Kernel))
      → ℕ
      → Server H
      → Option ℕ × Kernel
      → Bool × (Server H × Kernel)
  keep_socket rest p s (none, k) = (false, (s, k))
  keep_socket rest p s (some fd, k) =
      rest
        (record s {
          port_entries = update s.port_entries p (record (s.port_entries p) { sockfd = fd });
        })
        k

  -- The second loop of `fh_server_process_config`, over the ports and the pointers to their entries;
  -- the answers of the system calls are given for each port.
  unfoldable pub open_sockets :
      (ℕ → Calls) → List (ℕ × ℕ) → Server H → Kernel → Bool × (Server H × Kernel)
  unfolding keep_socket
  open_sockets calls [] s k = (true, (s, k))
  open_sockets calls ((key, p) ∷ ports) s k =
      keep_socket (λ s' k'. open_sockets calls ports s' k') p s
        (create_socket (calls (u16 key)) (u16 key) k)

  -- the server that the caller goes on with, and none after `return false`
  unfoldable pub if_ok : Bool × (Server H × Kernel) → Option (Server H) × Kernel
  if_ok (true, (s, k)) = (some s, k)
  if_ok (false, (s, k)) = (none, k)

  -- `fh_server_process_config`: the inner `none` is `return false`, after which the only caller
  -- frees the server.
  unfoldable pub process_config :
      Keys H
      → (ℕ → Calls)
      → List (Env H × ℕ × VhostId H)
      → Server H
      → Kernel
      → Option (Option (Server H) × Kernel)
  unfolding add_ids walk open_sockets if_ok
  process_config hosts calls rounds s k = add_ids hosts rounds s >>= λ r. elim r [
    | none ↦ some (none, k)
    | some s' ↦ walk s'.port_table s'.port_table.count s'.port_table.head_idx >>= λ ports.
        some (if_ok (open_sockets calls ports s' k))
  ]

  -- `fh_server_create`: the inner `none` is NULL. A failed configuration frees the port table and
  -- the server only. The Booleans are the two calls of `calloc`; `entries` is the memory at hand.
  unfoldable pub server_create :
      Keys H
      → Bool
      → Bool
      → Alloc ℕ
      → (ℕ → Calls)
      → List (Env H × ℕ × VhostId H)
      → (ℕ → PortEntry H)
      → Kernel
      → Option (Option (Server H) × Kernel)
  unfolding process_config
  server_create hosts calloc_server calloc_table alloc calls rounds entries k =
      if calloc_server
      then (create calloc_table alloc 16 >>= λ made. elim made [
        | none ↦ some (none, k)
        | some table ↦
            process_config hosts calls rounds
              (record { port_table = table; port_entries = entries }) k
      ])
      else some (none, k)

  -- the loop of `fh_server_listen`: which sockets listen, up to the first that does not
  unfoldable pub listen_all : (ℕ → Bool) → List (ℕ × ℕ) → Server H → Bool × List ℕ
  listen_all listens [] s = (true, [])
  listen_all listens ((key, p) ∷ ports) s =
      let fd = (s.port_entries p).sockfd in
      let rest = listen_all listens ports s in
      if listens fd then (rest.0, fd ∷ rest.1) else (false, [])

  -- `fh_server_listen`
  unfoldable pub server_listen : (ℕ → Bool) → Server H → Option (Bool × List ℕ)
  unfolding walk listen_all
  server_listen listens s = walk s.port_table s.port_table.count s.port_table.head_idx >>= λ ports.
      some (listen_all listens ports s)

  -- `fh_server_free`: the keys of the table and the pointers that
  -- `fh_server_port_table_entry_cleanup` frees
  unfoldable pub server_free : Server H → Option (List (ℕ × ℕ))
  unfolding free_with_cleanup
  server_free s = free_with_cleanup s.port_table
