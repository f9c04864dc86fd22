-- ===== src/Server/PortMap.antt =====
-- The port table of src/core/server.c against a map from ports and host names to virtual hosts.
use freehttpd.Base.{
  ℕ, ◌*◌, ◌^◌, ◌≤◌, ◌≡◌, ◌≢◌, refl, sym, ◌∙◌, ap, subst, inl, inr, Bool, true, false, some, ◌==◌,
  if◌then◌else◌, arith, eq→==, ne→==, eq_or_ne, update,
}
use freehttpd.Htable.Table.{Keys, Table}
use freehttpd.Htable.Ops.{create, get, set}
use freehttpd.Htable.IntKeys.{int_keys}
use freehttpd.Htable.Laws.{IsAmple}
use freehttpd.Htable.History.{Map, store}
use freehttpd.Htable.Client.{IsMap, get-IsMap, set-IsMap, create-IsMap, store_self, store-ne}
use freehttpd.Server.Config.{Server, Env, port_entry}

module _ {H : Type 0} (hosts : Keys H) where
  -- the entry of each port, 0 where there is none, and the map of each entry's hosts
  pub record View : Type 0 where
    pub entry_of : Map int_keys
    pub hosts_of : ℕ → Map hosts

  -- The port table stands for `entry_of`, the table of each entry for its `hosts_of`; two ports
  -- have two entries. No index has more than `n` cells.
  pub record IsServer (s : Server H) (w : View) (n : ℕ) : Type 0 where
    pub ports : IsMap int_keys s.port_table w.entry_of
    pub ports_fit : s.port_table.index_capacity ≤ n
    pub tables_fit :
        (port : ℕ)
        → (w.entry_of port).0 ≢ 0
        → (s.port_entries (w.entry_of port).0).host_config_table.index_capacity ≤ n
    pub tables :
        (port : ℕ)
        → (w.entry_of port).0 ≢ 0
        → IsMap hosts
            (s.port_entries (w.entry_of port).0).host_config_table
            (w.hosts_of (w.entry_of port).0)
    pub apart :
        (port port' : ℕ)
        → (w.entry_of port).0 ≢ 0
        → (w.entry_of port).0 ≡ (w.entry_of port').0
        → port ≡ port'

  -- the virtual host of a port and a host name, 0 where there is none
  unfoldable pub vhost_of : View → ℕ → H → ℕ
  vhost_of w port h = if (w.entry_of port).0 == 0 then 0 else (w.hosts_of (w.entry_of port).0 h).0

  -- all allocations of a round succeed, and the new entry is not one in use
  pub record IsRound (env : Env H) (w : View) : Type 0 where
    pub new : ℕ
    pub malloc_ok : env.malloc ≡ some new
    pub not_null : new ≢ 0
    pub unused : (port : ℕ) → (w.entry_of port).0 ≢ new
    pub calloc_ok : env.calloc_table ≡ true
    pub host_table : IsAmple env.host_table
    pub port_set : IsAmple env.port_set
    pub host_set : IsAmple env.host_set

  -- what the lookup of a port's entry leaves
  pub record HasEntry (w : View) (port p n : ℕ) (s' : Server H) (w' : View) : Type 0 where
    pub server : IsServer s' w' n
    pub at : (w'.entry_of port).0 ≡ p
    pub not_null : p ≢ 0
    pub same : (q : ℕ) (h : H) → vhost_of w' q h ≡ vhost_of w q h

  module _ (s : Server H) (w : View) (n port new : ℕ) (server : IsServer s w n)
      (none_yet : (w.entry_of port).0 ≡ 0) (not_null : new ≢ 0)
      (unused : (q : ℕ) → (w.entry_of q).0 ≢ new) (ports' : Table ℕ) (table : Table H)
      (is_map : IsMap int_keys ports' (store int_keys w.entry_of port (new, true)))
      (is_table : IsMap hosts table (λ _. (0, false))) where
    abbrev with_new : Server H
    with_new = record {
      port_table = ports';
      port_entries = update s.port_entries new (record { host_config_table = table; sockfd = 0 });
    }

    abbrev new_view : View
    new_view = record {
      entry_of = store int_keys w.entry_of port (new, true);
      hosts_of = update w.hosts_of new (λ _. (0, false));
    }

    at_port : (new_view.entry_of port).0 ≡ new
    at_port = ap (λ (r : ℕ × Bool). r.0) (store_self int_keys w.entry_of port (new, true))

    at_other : (q : ℕ) → q ≢ port → (new_view.entry_of q).0 ≡ (w.entry_of q).0
    at_other q ne = ap (λ (r : ℕ × Bool). r.0) (store-ne int_keys w.entry_of q port (new, true) ne)

    new_table :
        (q : ℕ)
        → (new_view.entry_of q).0 ≢ 0
        → IsMap hosts
            (with_new.port_entries (new_view.entry_of q).0).host_config_table
            (new_view.hosts_of (new_view.entry_of q).0)
    new_table q ne = elim (eq_or_ne q port) [
      | inl e ↦
          subst
            (λ (p : ℕ).
              IsMap hosts (with_new.port_entries p).host_config_table (new_view.hosts_of p))
            (sym (ap (λ (x : ℕ). (new_view.entry_of x).0) e ∙ at_port))
            (rw (eq→== new new refl) is_table)
      | inr d ↦
          subst
            (λ (p : ℕ).
              IsMap hosts (with_new.port_entries p).host_config_table (new_view.hosts_of p))
            (sym (at_other q d))
            (rw (ne→== new (w.entry_of q).0 (λ e. unused q (sym e)))
              (server.tables q (λ z. ne (at_other q d ∙ z))))
    ]

    new_fit :
        (q : ℕ)
        → (new_view.entry_of q).0 ≢ 0
        → table.index_capacity ≤ n * 2
        → (with_new.port_entries (new_view.entry_of q).0).host_config_table.index_capacity ≤ n * 2
    new_fit q ne fits = elim (eq_or_ne q port) [
      | inl e ↦
          subst (λ (p : ℕ). (with_new.port_entries p).host_config_table.index_capacity ≤ n * 2)
            (sym (ap (λ (x : ℕ). (new_view.entry_of x).0) e ∙ at_port))
            (rw (eq→== new new refl) fits)
      | inr d ↦
          let old = server.tables_fit q (λ z. ne (at_other q d ∙ z)) in
          subst (λ (p : ℕ). (with_new.port_entries p).host_config_table.index_capacity ≤ n * 2)
            (sym (at_other q d))
            (rw (ne→== new (w.entry_of q).0 (λ e. unused q (sym e))) (omega arith))
    ]

    new_apart :
        (q q' : ℕ)
        → (new_view.entry_of q).0 ≢ 0
        → (new_view.entry_of q).0 ≡ (new_view.entry_of q').0
        → q ≡ q'
    new_apart q q' ne same = elim (eq_or_ne q port) [
      | inl e ↦ elim (eq_or_ne q' port) [
        | inl e' ↦ e ∙ sym e'
        | inr d' ↦ absurd (
            unused q' (
              sym (at_other q' d')
              ∙ sym same
              ∙ ap (λ (x : ℕ). (new_view.entry_of x).0) e
              ∙ at_port))
      ]
      | inr d ↦ elim (eq_or_ne q' port) [
        | inl e' ↦ absurd (
            unused q
              (sym (at_other q d) ∙ same ∙ ap (λ (x : ℕ). (new_view.entry_of x).0) e' ∙ at_port))
        | inr d' ↦
            server.apart q q' (λ z. ne (at_other q d ∙ z))
              (sym (at_other q d) ∙ same ∙ at_other q' d')
      ]
    ]

    new_same : (q : ℕ) (h : H) → vhost_of new_view q h ≡ vhost_of w q h
    unfolding vhost_of
    new_same q h = elim (eq_or_ne q port) [
      | inl e ↦
          let at_q : (new_view.entry_of q).0 ≡ new =
            ap (λ (x : ℕ). (new_view.entry_of x).0) e ∙ at_port in
          let old : (w.entry_of q).0 ≡ 0 = ap (λ (x : ℕ). (w.entry_of x).0) e ∙ none_yet in
          let now : vhost_of new_view q h ≡ 0 =
            rw (vhost_of, at_q, ne→== new 0 not_null, eq→== new new refl) in
          let before : vhost_of w q h ≡ 0 = rw (vhost_of, old) in now ∙ sym before
      | inr d ↦ rw (at_other q d, ne→== new (w.entry_of q).0 (λ e. unused q (sym e)))
    ]

    new-HasEntry :
        ports'.index_capacity ≤ n * 2
        → table.index_capacity ≤ n * 2
        → HasEntry w port new (n * 2) with_new new_view
    new-HasEntry ports_fit table_fit = record {
      server = record {
        ports = is_map;
        ports_fit = ports_fit;
        tables_fit = λ q ne. new_fit q ne table_fit;
        tables = new_table;
        apart = new_apart;
      };
      at = at_port;
      not_null = not_null;
      same = new_same;
    }

  -- the run of the lookup where there is no entry yet
  port_entry_new :
      (env : Env H) (s : Server H) (port new : ℕ) (table : Table H) (ports' : Table ℕ)
      → get int_keys s.port_table port ≡ some 0
      → env.malloc ≡ some new
      → env.calloc_table ≡ true
      → create true env.host_table 16 ≡ some (some table)
      → set int_keys env.port_set s.port_table port new ≡ some (ports', true)
      → port_entry env s port
        ≡ some (
            some (
              new,
              record {
                port_table = ports';
                port_entries =
                    update s.port_entries new (record { host_config_table = table; sockfd = 0 });
              },
            ))
  unfolding port_entry
  port_entry_new env s port new table ports' none_yet malloc_ok calloc_ok made put =
      rw (none_yet, malloc_ok, calloc_ok, made, put)

  -- the lookup on a round whose allocations succeed
  pub port_entry_lem :
      (env : Env H) (s : Server H) (w : View) (n port : ℕ)
      → IsServer s w n
      → IsRound env w
      → 16 ≤ n
      → n * 2 ≤ 2 ^ 31
      → (p : ℕ) × (s' : Server H) × (w' : View) × (port_entry env s port ≡ some (some (p, s')))
        × HasEntry w port p (n * 2) s' w'
  unfolding port_entry
  port_entry_lem env s w n port server round least most = elim (eq_or_ne (w.entry_of port).0 0) [
    | inl z ↦
        let (table, made, is_table, small) =
          create-IsMap hosts env.host_table 16 (omega arith) (omega arith) round.host_table in
        let ports_fit = server.ports_fit in
        let (ports', put, is_map, bound) =
          set-IsMap int_keys env.port_set s.port_table w.entry_of port round.new server.ports
            (omega arith) round.port_set in
        (
          round.new,
          with_new s w n port round.new server z round.not_null round.unused ports' table is_map
              is_table,
          new_view s w n port round.new server z round.not_null round.unused ports' table is_map
              is_table,
          port_entry_new env s port round.new table ports'
              (get-IsMap int_keys s.port_table w.entry_of port server.ports ∙ ap (λ v. some v) z)
              round.malloc_ok round.calloc_ok made put,
          new-HasEntry s w n port round.new server z round.not_null round.unused ports' table is_map
              is_table (omega arith) (omega arith),
        )
    | inr ne ↦
        let ports_fit = server.ports_fit in
        (
          (w.entry_of port).0,
          s,
          w,
          (rw (
            get-IsMap int_keys s.port_table w.entry_of port server.ports,
            ne→== (w.entry_of port).0 0 ne,
          )),
          record {
            server = record {
              ports = server.ports;
              ports_fit = omega arith;
              tables_fit = λ q d. let fit = server.tables_fit q d in omega arith;
              tables = server.tables;
              apart = server.apart;
            };
            at = refl;
            not_null = ne;
            same = λ q h. refl;
          },
        )
  ]
