-- ===== src/Poller/Table.antt =====
-- An interest set as a function, for the tests: it meets what `Epoll` asks of a kernel.
use echo_server.Prelude.{ℕ, ◌≡◌, ◌≢◌, Option, none, some, arith, ◌==◌, ==-refl, if◌then◌else◌}
use echo_server.Channel.{Events}
use echo_server.Poller.{Epoll, Operation, ctl_add, ctl_mod, ctl_del}

abbrev pub Table : Type 0
Table = ℕ → Option (Events × ℕ)

abbrev pub write : ℕ → Option (Events × ℕ) → Table → Table
write fd e t k = if fd == k then e else t k

abbrev pub table_ctl : Operation → ℕ → Events × ℕ → Table → Option Table
table_ctl ctl_add fd e t = elim (t fd) [ none ↦ some (write fd (some e) t) | some _ ↦ none ]
table_ctl ctl_mod fd e t = elim (t fd) [ none ↦ none | some _ ↦ some (write fd (some e) t) ]
table_ctl ctl_del fd e t = elim (t fd) [ none ↦ none | some _ ↦ some (write fd none t) ]

module _ (s t : Table) (fd : ℕ) (e : Events × ℕ) where
  add_writes : table_ctl ctl_add fd e s ≡ some t → t ≡ write fd (some e) s
  add_writes h = ground arith

  mod_writes : table_ctl ctl_mod fd e s ≡ some t → t ≡ write fd (some e) s
  mod_writes h = ground arith

  del_writes : table_ctl ctl_del fd e s ≡ some t → t ≡ write fd none s
  del_writes h = ground arith

write_self : (s : Table) (fd : ℕ) (e : Option (Events × ℕ)) → write fd e s fd ≡ e
write_self s fd e = rw (==-refl fd)

write_other : (s : Table) (fd k : ℕ) (e : Option (Events × ℕ)) → fd ≢ k → write fd e s k ≡ s k
write_other s fd k e ne = ground arith

pub stays :
    (o : Operation) (s t : Table) (fd : ℕ) (e : Events × ℕ) (k : ℕ)
    → table_ctl o fd e s ≡ some t
    → fd ≢ k
    → t k ≡ s k
stays ctl_add s t fd e k h ne = rw (add_writes s t fd e h) (write_other s fd k (some e) ne)
stays ctl_mod s t fd e k h ne = rw (mod_writes s t fd e h) (write_other s fd k (some e) ne)
stays ctl_del s t fd e k h ne = rw (del_writes s t fd e h) (write_other s fd k none ne)

module _ (s : Table) (fd : ℕ) (e : Events × ℕ) where
  pub add_runs : s fd ≡ none → (t : Table) × (table_ctl ctl_add fd e s ≡ some t)
  add_runs h = (write fd (some e) s, rw (h, table_ctl))

  pub mod_runs :
      (old : Events × ℕ) → s fd ≡ some old → (t : Table) × (table_ctl ctl_mod fd e s ≡ some t)
  mod_runs old h = (write fd (some e) s, rw (h, table_ctl))

  pub del_runs :
      (old : Events × ℕ) → s fd ≡ some old → (t : Table) × (table_ctl ctl_del fd e s ≡ some t)
  del_runs old h = (write fd none s, rw (h, table_ctl))

module _ (s t : Table) (fd : ℕ) (e : Events × ℕ) where
  pub add_kept : table_ctl ctl_add fd e s ≡ some t → t fd ≡ some e
  add_kept h = rw (add_writes s t fd e h) (write_self s fd (some e))

  pub mod_kept : table_ctl ctl_mod fd e s ≡ some t → t fd ≡ some e
  mod_kept h = rw (mod_writes s t fd e h) (write_self s fd (some e))

  pub del_gone : table_ctl ctl_del fd e s ≡ some t → t fd ≡ none
  del_gone h = rw (del_writes s t fd e h) (write_self s fd none)

abbrev pub table : Epoll
table = record {
  State = Table;
  entry = λ t fd. t fd;
  ctl = table_ctl;
  add_fresh = add_runs;
  mod_present = mod_runs;
  del_present = del_runs;
  add_sets = add_kept;
  mod_sets = mod_kept;
  del_clears = del_gone;
  others_stay = stays;
}
