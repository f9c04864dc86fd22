-- ===== src/Server/ConfigLaws.antt =====
-- The configuration of src/core/server.c: what the port table holds after it.
use freehttpd.Base.{
  ℕ, ◌*◌, ◌^◌, ◌≤◌, ◌≡◌, ◌≢◌, refl, sym, ◌∙◌, ap, subst, inl, inr, Bool, true, false, some, ◌==◌,
  ◌&&◌, if◌then◌else◌, arith, eq→==, ne→==, eq_or_ne, update, Bool-cases, ==→eq, ==→ne,
}
use freehttpd.Htable.Table.{Keys, Table, Alloc}
use freehttpd.Htable.Laws.{IsAmple}
use freehttpd.Htable.History.{store}
use freehttpd.Htable.Client.{IsMap, set-IsMap}
use freehttpd.Server.Config.{VhostId, Server, Env, set_host, add_id}
use freehttpd.Server.PortMap.{View, IsServer, vhost_of, IsRound, port_entry_lem}

pick : (b : Bool) (v : ℕ) (r : ℕ × Bool) → (if b then (v, true) else r).0 ≡ (if b then v else r.0)
pick true v r = refl
pick false v r = refl

four : (n : ℕ) → n * 2 * 2 ≡ n * 4
four n = omega arith

module _ {H : Type 0} (hosts : Keys H) where
  module _ (s : Server H) (w : View hosts) (n p port : ℕ) (hostname : H) (vhost : ℕ)
      (server : IsServer hosts s w n) (at : (w.entry_of port).0 ≡ p) (not_null : p ≢ 0)
      (table : Table H)
      (is_table : IsMap hosts table (store hosts (w.hosts_of p) hostname (vhost, true))) where
    abbrev stored : Server H
    stored = record s {
      port_entries =
          update s.port_entries p (record (s.port_entries p) { host_config_table = table });
    }

    abbrev stored_view : View hosts
    stored_view = record w {
      hosts_of = update w.hosts_of p (store hosts (w.hosts_of p) hostname (vhost, true));
    }

    stored_table :
        (q : ℕ)
        → (w.entry_of q).0 ≢ 0
        → IsMap hosts
            (stored.port_entries (w.entry_of q).0).host_config_table
            (stored_view.hosts_of (w.entry_of q).0)
    stored_table q ne = elim (eq_or_ne p (w.entry_of q).0) [
      | inl e ↦ rw (eq→== p (w.entry_of q).0 e) is_table
      | inr d ↦ rw (ne→== p (w.entry_of q).0 d) (server.tables q ne)
    ]

    stored_fit :
        (q : ℕ)
        → (w.entry_of q).0 ≢ 0
        → table.index_capacity ≤ n * 2
        → (stored.port_entries (w.entry_of q).0).host_config_table.index_capacity ≤ n * 2
    stored_fit q ne fits = elim (eq_or_ne p (w.entry_of q).0) [
      | inl e ↦ rw (eq→== p (w.entry_of q).0 e) fits
      | inr d ↦ let old = server.tables_fit q ne in rw (ne→== p (w.entry_of q).0 d) (omega arith)
    ]

    -- the virtual host of one port and name changes
    stored_vhost :
        (q : ℕ) (h : H)
        → vhost_of hosts stored_view q h
          ≡ (if (q == port) && hosts.equal h hostname then vhost else vhost_of hosts w q h)
    unfolding vhost_of
    stored_vhost q h = elim (Bool-cases (q == port)) [
      | inl y ↦
          let here : (w.entry_of q).0 ≡ p =
            ap (λ (x : ℕ). (w.entry_of x).0) (==→eq q port y) ∙ at in
          rw (y, here, ne→== p 0 not_null, eq→== p p refl)
            (pick (hosts.equal h hostname) vhost (w.hosts_of p h))
      | inr y ↦ rw y (elim (eq_or_ne (w.entry_of q).0 0) [
        | inl z ↦ rw (z)
        | inr ne ↦
            let other : p ≢ (w.entry_of q).0 =
              λ e. ==→ne q port y (server.apart q port ne (sym e ∙ sym at)) in
            rw (ne→== p (w.entry_of q).0 other)
      ])
    ]

    pub stored-IsServer : table.index_capacity ≤ n * 2 → IsServer hosts stored stored_view (n * 2)
    stored-IsServer table_fit =
        let ports_fit = server.ports_fit in
        record {
          ports = server.ports;
          ports_fit = omega arith;
          tables_fit = λ q ne. stored_fit q ne table_fit;
          tables = stored_table;
          apart = server.apart;
        }

  -- a round keeps the server, and changes one virtual host
  pub record IsAdded (w : View hosts) (port : ℕ) (hostname : H) (vhost n : ℕ) (s' : Server H)
      (w' : View hosts) : Type 0 where
    pub server : IsServer hosts s' w' n
    pub vhosts :
        (q : ℕ) (h : H)
        → vhost_of hosts w' q h
          ≡ (if (q == port) && hosts.equal h hostname then vhost else vhost_of hosts w q h)

  set_host_lem :
      (alloc : Alloc H) (s : Server H) (w : View hosts) (n p : ℕ) (hostname : H) (vhost : ℕ)
      → IsMap hosts (s.port_entries p).host_config_table (w.hosts_of p)
      → (s.port_entries p).host_config_table.index_capacity ≤ n
      → n * 2 ≤ 2 ^ 31
      → IsAmple alloc
      → (table : Table H) × (set_host hosts alloc s p hostname vhost
          ≡ some (record s {
            port_entries =
                update s.port_entries p (record (s.port_entries p) { host_config_table = table });
          }))
        × IsMap hosts table (store hosts (w.hosts_of p) hostname (vhost, true))
        × (table.index_capacity ≤ n * 2)
  unfolding set_host
  set_host_lem alloc s w n p hostname vhost m fit most ample =
      let (table, put, is_map, bound) =
        set-IsMap hosts alloc (s.port_entries p).host_config_table (w.hosts_of p) hostname vhost m
          (omega arith) ample in
      (table, (rw put), is_map, (omega arith))

  -- On a server whose port table and host tables stand for a view, in a round whose allocations all
  -- succeed and while the indexes may double twice, a round of `fh_server_process_config` does not
  -- fail or fault: the port and host name of the identity lead to its virtual host afterwards, all
  -- other pairs lead where they led before, and the tables stand for the new view.
  pub add_id_lem :
      (env : Env H) (s : Server H) (w : View hosts) (n vhost : ℕ) (id : VhostId H)
      → IsServer hosts s w n
      → IsRound hosts env w
      → 16 ≤ n
      → n * 4 ≤ 2 ^ 31
      → (s' : Server H) × (w' : View hosts) × (add_id hosts env s vhost id ≡ some (some s'))
        × IsAdded w id.port id.hostname vhost (n * 4) s' w'
  unfolding add_id
  add_id_lem env s w n vhost id server round least most =
      let (p, s₁, w₁, found, e) =
        port_entry_lem hosts env s w n id.port server round least (omega arith) in
      let there : (w₁.entry_of id.port).0 ≢ 0 = λ z. e.not_null (sym e.at ∙ z) in
      let table₁ =
        subst (λ (q : ℕ). IsMap hosts (s₁.port_entries q).host_config_table (w₁.hosts_of q)) e.at
          (e.server.tables id.port there) in
      let fit₁ =
        subst (λ (q : ℕ). (s₁.port_entries q).host_config_table.index_capacity ≤ n * 2) e.at
          (e.server.tables_fit id.port there) in
      let (table, put, is_map, bound) =
        set_host_lem env.host_set s₁ w₁ (n * 2) p id.hostname vhost table₁ fit₁ (omega arith)
          round.host_set in
      (
        stored s₁ w₁ (n * 2) p id.port id.hostname vhost e.server e.at e.not_null table is_map,
        stored_view s₁ w₁ (n * 2) p id.port id.hostname vhost e.server e.at e.not_null table is_map,
        (rw (found, put)),
        record {
          server =
              subst
                (λ (k : ℕ).
                  IsServer hosts
                    (stored s₁ w₁ (n * 2) p id.port id.hostname vhost e.server e.at e.not_null table
                      is_map)
                    (stored_view s₁ w₁ (n * 2) p id.port id.hostname vhost e.server e.at e.not_null
                      table is_map)
                    k)
                (four n)
                (stored-IsServer s₁ w₁ (n * 2) p id.port id.hostname vhost e.server e.at e.not_null
                  table is_map bound);
          vhosts = λ q h.
              stored_vhost s₁ w₁ (n * 2) p id.port id.hostname vhost e.server e.at e.not_null table
                is_map q h
              ∙ ap (λ (v : ℕ). if (q == id.port) && hosts.equal h id.hostname then vhost else v)
                  (e.same q h);
        },
      )
