-- ===== src/Server/Tests.antt =====
-- Runs of src/core/server.c.
use freehttpd.Base.{
  ℕ, ◌*◌, ◌<◌, ◌≡◌, refl, true, false, [], ◌∷◌, ◌⊎◌, none, some, ◌==◌, if◌then◌else◌, arith,
}
use freehttpd.Htable.Table.{Table, Alloc}
use freehttpd.Htable.Ops.{create}
use freehttpd.Htable.IntKeys.{int_keys}
use freehttpd.Htable.Laws.{IsAmple}
use freehttpd.Htable.Client.{IsMap, create-IsMap}
use freehttpd.Server.Socket.{Calls, Kernel, configure, create_socket}
use freehttpd.Server.Config.{Server, Env, add_id}
use freehttpd.Server.Run.{open_sockets}
use freehttpd.Server.SocketLaws.{create_socket_lem, IsOpened, open_sockets_lem}
use freehttpd.Server.PortMap.{View, IsServer, IsRound}
use freehttpd.Server.ConfigLaws.{IsAdded, add_id_lem}

-- the port 80 cannot be bound
abbrev calls : Calls
calls = record {
  socket = some 9;
  setsockopt = λ o. true;
  getfl = some 2;
  setfl = λ flags. true;
  o_nonblock = 2048;
  bind = λ port. if port == 80 then false else true;
}

abbrev kernel : Kernel
kernel = record { opened = 3 ∷ []; bound = [] }

create_socket_lem_example :
    (create_socket calls 8080 kernel ≡ (none, kernel))
    ⊎ ((fd : ℕ) × (calls.socket ≡ some fd)
        × (configure calls ≡ true)
        × (calls.bind 8080 ≡ true)
        × (create_socket calls 8080 kernel
            ≡ (some fd, record { opened = fd ∷ (3 ∷ []); bound = (8080, fd) ∷ [] })))
create_socket_lem_example = create_socket_lem calls 8080 kernel

abbrev memory : Alloc ℕ
memory = record {
  calloc_ok = true;
  malloc_entries =
      some (λ i. record { key = 0; value = 0; cached_hash = 0; prev_idx = 0; next_idx = 0 });
  dup_ok = true;
  realloc_ok = true;
}

memory-IsAmple : IsAmple memory
memory-IsAmple = record {
  calloc_ok = refl;
  memory = λ i. record { key = 0; value = 0; cached_hash = 0; prev_idx = 0; next_idx = 0 };
  malloc_ok = refl;
  dup_ok = refl;
  realloc_ok = refl;
}

empty_ports :
    (t : Table ℕ) × (create true memory 16 ≡ some (some t))
    × IsMap int_keys t (λ _. (0, false))
    × (t.index_capacity < 32)
empty_ports = create-IsMap int_keys memory 16 (omega arith) (omega arith) memory-IsAmple

-- a server with no port; host names are numbers
start : Server ℕ
start = record {
  port_table = empty_ports.0;
  port_entries = λ p. record { host_config_table = empty_ports.0; sockfd = 0 };
}

abbrev start_view : View int_keys
start_view = record { entry_of = λ _. (0, false); hosts_of = λ p h. (0, false) }

start-IsServer : IsServer int_keys start start_view 32
unfolding start
start-IsServer = record {
  ports = empty_ports.2;
  ports_fit = let small = empty_ports.3 in omega arith;
  tables_fit = λ port ne. absurd (ne refl);
  tables = λ port ne. absurd (ne refl);
  apart = λ port port' ne e. absurd (ne refl);
}

open_sockets_lem_example :
    IsOpened
      (λ port. calls)
      ((8080, 1) ∷ (80, 2) ∷ [])
      kernel
      (open_sockets (λ port. calls) ((8080, 1) ∷ (80, 2) ∷ []) start kernel)
open_sockets_lem_example = open_sockets_lem (λ port. calls) ((8080, 1) ∷ (80, 2) ∷ []) start kernel

abbrev round : Env ℕ
round = record {
  malloc = some 64;
  calloc_table = true;
  host_table = memory;
  port_set = memory;
  host_set = memory;
}

round-IsRound : IsRound int_keys round start_view
round-IsRound = record {
  new = 64;
  malloc_ok = refl;
  not_null = omega arith;
  unused = λ port. omega arith;
  calloc_ok = refl;
  host_table = memory-IsAmple;
  port_set = memory-IsAmple;
  host_set = memory-IsAmple;
}

-- the host 5 at the port 8080 gets the virtual host 1000
add_id_lem_example :
    (s' : Server ℕ) × (w' : View int_keys) × (add_id int_keys round start 1000
        (record { hostname = 5; port = 8080 })
      ≡ some (some s'))
    × IsAdded int_keys start_view 8080 5 1000 (32 * 4) s' w'
add_id_lem_example =
    add_id_lem int_keys round start start_view 32 1000 (record { hostname = 5; port = 8080 })
      start-IsServer round-IsRound (omega arith) (omega arith)
