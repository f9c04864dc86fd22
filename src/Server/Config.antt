-- ===== src/Server/Config.antt =====
-- The port table of src/core/server.c. A port entry is memory behind a pointer, a number that is
-- not 0; a virtual host is a pointer too. Each round of the loop is given what its calls of the
-- allocator do.
use freehttpd.Base.{ℕ, Bool, List, [], ◌∷◌, Option, none, some, ◌==◌, if◌then◌else◌, update, ◌>>=◌}
use freehttpd.Htable.Table.{Keys, Table, Alloc}
use freehttpd.Htable.Ops.{create, get, set}
use freehttpd.Htable.IntKeys.{int_keys}

-- `struct fh_config_vhost_id`, with a type of host names
pub record VhostId (H : Type 0) : Type 0 where
  pub hostname : H
  pub port : ℕ

-- `struct fh_config_vhost`: its address, and its list of identities
pub record Vhost (H : Type 0) : Type 0 where
  pub address : ℕ
  pub id_list : List (VhostId H)

-- `struct fh_port_table_entry`
pub record PortEntry (H : Type 0) : Type 0 where
  pub host_config_table : Table H
  pub sockfd : ℕ

-- `struct fh_server`, and the memory of its port entries
pub record Server (H : Type 0) : Type 0 where
  pub port_table : Table ℕ
  pub port_entries : ℕ → PortEntry H

-- What the calls of one round meet: `malloc` of an entry, which is `none` for NULL,
-- `str_htable_create`, `int_htable_set` and `str_htable_set`.
pub record Env (H : Type 0) : Type 0 where
  pub malloc : Option ℕ
  pub calloc_table : Bool
  pub host_table : Alloc H
  pub port_set : Alloc ℕ
  pub host_set : Alloc H

module _ {H : Type 0} where
  -- The entry of a port, made if there is none. The inner `none` is `return false`. The result
  -- of `int_htable_set` is not looked at.
  unfoldable pub port_entry : Env H → Server H → ℕ → Option (Option (ℕ × Server H))
  port_entry env s port = do
    p ← get int_keys s.port_table port
    if p == 0
        then elim env.malloc [
          | none ↦ some none
          | some new ↦ create env.calloc_table env.host_table 16 >>= λ made. elim made [
            | none ↦ some none
            | some table ↦ set int_keys env.port_set s.port_table port new >>= λ r. some (
                some (
                  new,
                  record {
                    port_table = r.0;
                    port_entries =
                        update s.port_entries new
                          (record { host_config_table = table; sockfd = 0 });
                  },
                ))
          ]
        ]
        else some (some (p, s))

module _ {H : Type 0} (hosts : Keys H) where
  -- `str_htable_set` on the table of an entry
  unfoldable pub set_host : Alloc H → Server H → ℕ → H → ℕ → Option (Server H)
  set_host alloc s p hostname vhost = do
    r ← set hosts alloc (s.port_entries p).host_config_table hostname vhost
    some (record s {
      port_entries =
          update s.port_entries p (record (s.port_entries p) { host_config_table = r.0 });
    })

  -- one round of the inner loop
  unfoldable pub add_id : Env H → Server H → ℕ → VhostId H → Option (Option (Server H))
  unfolding port_entry set_host
  add_id env s vhost id = port_entry env s id.port >>= λ r. elim r [
    | none ↦ some none
    | some (p, s₁) ↦ set_host env.host_set s₁ p id.hostname vhost >>= λ s₂. some (some s₂)
  ]

  -- The loops over the virtual hosts and over their identities, as one list of both. The rounds
  -- come with what their calls meet.
  unfoldable pub add_ids : List (Env H × ℕ × VhostId H) → Server H → Option (Option (Server H))
  unfolding add_id
  add_ids [] s = some (some s)
  add_ids ((env, vhost, id) ∷ rounds) s =
      add_id env s vhost id >>= λ r. elim r [ none ↦ some none | some s' ↦ add_ids rounds s' ]

-- the rounds of a configuration: each identity of each virtual host, in order
unfoldable pub ids_of :
    {H : Type 0} → ℕ → List (VhostId H) → List (ℕ × VhostId H) → List (ℕ × VhostId H)
ids_of vhost [] rest = rest
ids_of vhost (id ∷ ids) rest = (vhost, id) ∷ ids_of vhost ids rest

unfoldable pub rounds : {H : Type 0} → List (Vhost H) → List (ℕ × VhostId H)
rounds [] = []
rounds (v ∷ vs) = ids_of v.address v.id_list (rounds vs)
