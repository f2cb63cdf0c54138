-- ===== src/Hook/Table.antt =====
-- lib/loader/src/hook/block_io.rs: the table of hooks, and the pointers of the protocols.
use volumecrypt_kit.Prelude.{
  ℕ, ◌≡◌, ◌≢◌, refl, ap, ◌⊎◌, inl, inr, true, false, Option, none, some, List, [], ◌∷◌, arith, ◌==◌,
  Bool-cases,
}
use volumecrypt_kit.Error.{ok}
use volumecrypt_kit.Hook.{
  BlockIoHookEngine, BlocksFn, hooked, HookEntry, Hooks, put, find_entry, take_slot, install,
  clear_entries, uninstall,
}

abbrev pub entry_of : ℕ → Option BlockIoHookEngine → Hooks → HookEntry
entry_of p engine h = record {
  protocol = p;
  original_read = h.read_blocks p;
  original_write = h.write_blocks p;
  engine = engine;
}

same_refl : (p : ℕ) → (p == p) ≡ true
same_refl p = ground arith

clear_entries-unhooked :
    (p : ℕ) (es : List (Option HookEntry)) → find_entry p es ≡ none → clear_entries p es ≡ es
unfolding find_entry clear_entries
clear_entries-unhooked p [] free = refl
clear_entries-unhooked p (none ∷ es) free = ap (λ l. none ∷ l) (clear_entries-unhooked p es free)
clear_entries-unhooked p (some e ∷ es) free = elim (Bool-cases (e.protocol == p)) [
  | inl mine ↦ cc (rw mine at free)
  | inr not_mine ↦
      rw not_mine (ap (λ l. some e ∷ l) (clear_entries-unhooked p es (rw not_mine at free)))
]

module _ (p : ℕ) (new : HookEntry) (is : new.protocol ≡ p) where
  -- The table is full, or the new entry is found in it and clearing it gives the old table.
  abbrev Taken : List (Option HookEntry) → Type 0
  Taken es =
      (take_slot new es ≡ none)
      ⊎ ((es' : List (Option HookEntry)) × ((take_slot new es ≡ some es')
            × (find_entry p es' ≡ some new)
            × (clear_entries p es' ≡ es)))

  Taken-cons :
      (e : HookEntry) (es : List (Option HookEntry))
      → (e.protocol == p) ≡ false
      → Taken es
      → Taken (some e ∷ es)
  unfolding take_slot find_entry clear_entries
  Taken-cons e es not_mine (inl full) = inl (rw full refl)
  Taken-cons e es not_mine (inr (es', (took, found, cleared))) =
      inr (
        some e ∷ es',
        (rw took refl, rw not_mine found, rw not_mine (ap (λ l. some e ∷ l) cleared)),
      )

  taken_lem : (es : List (Option HookEntry)) → find_entry p es ≡ none → Taken es
  unfolding take_slot find_entry clear_entries
  taken_lem [] free = inl refl
  taken_lem (none ∷ es) free = inr (
    some new ∷ es,
    (
      refl,
      rw (is, same_refl p) refl,
      rw (is, same_refl p) (ap (λ l. none ∷ l) (clear_entries-unhooked p es free)),
    ),
  )
  taken_lem (some e ∷ es) free = elim (Bool-cases (e.protocol == p)) [
    | inl mine ↦ cc (rw mine at free)
    | inr not_mine ↦ Taken-cons e es not_mine (taken_lem es (rw not_mine at free))
  ]

module _ (p : ℕ) (engine : Option BlockIoHookEngine) (h : Hooks)
    (free : find_entry p h.entries ≡ none) where
  abbrev hooked_up : List (Option HookEntry) → Hooks
  hooked_up es = record {
    entries = es;
    read_blocks = put p hooked h.read_blocks;
    write_blocks = put p hooked h.write_blocks;
  }

  install-full : take_slot (entry_of p engine h) h.entries ≡ none → (install p engine h).1 ≡ h
  unfolding install
  install-full full = rw (install, full) refl

  install-full_fails :
      take_slot (entry_of p engine h) h.entries ≡ none → (install p engine h).0 ≢ ok tt
  unfolding install
  install-full_fails full good = cc (rw (install, full) at good)

  install-room :
      (es : List (Option HookEntry))
      → take_slot (entry_of p engine h) h.entries ≡ some es
      → install p engine h ≡ (ok tt, hooked_up es)
  unfolding install
  install-room es took = rw (install, took) refl

  uninstall-found :
      (h' : Hooks) (e : HookEntry)
      → find_entry p h'.entries ≡ some e
      → uninstall p h' ≡ record {
        entries = clear_entries p h'.entries;
        read_blocks = put p e.original_read h'.read_blocks;
        write_blocks = put p e.original_write h'.write_blocks;
      }
  unfolding uninstall
  uninstall-found h' e found = rw (uninstall, found) refl

  put-put : (fs : ℕ → BlocksFn) (q : ℕ) → put p (fs p) (put p hooked fs) q ≡ fs q
  put-put fs q = elim (Bool-cases (q == p)) [
    | inl mine ↦ let e : q ≡ p = ground arith in rw (mine, e) refl
    | inr other ↦ rw other refl
  ]

  -- The calls of the protocol are hooked, its entry has the engine and the pointers as they were, and taking the hooks off gives everything back.
  pub record Hooked (installed : Hooks) : Type 0 where
    pub reads : installed.read_blocks p ≡ hooked
    pub writes : installed.write_blocks p ≡ hooked
    pub found : find_entry p installed.entries ≡ some (entry_of p engine h)
    pub entries_back : (uninstall p installed).entries ≡ h.entries
    pub reads_back : (q : ℕ) → (uninstall p installed).read_blocks q ≡ h.read_blocks q
    pub writes_back : (q : ℕ) → (uninstall p installed).write_blocks q ≡ h.write_blocks q

  hooked_up_lem :
      (es : List (Option HookEntry))
      → find_entry p es ≡ some (entry_of p engine h)
      → clear_entries p es ≡ h.entries
      → Hooked (hooked_up es)
  hooked_up_lem es found cleared =
      let off = uninstall-found (hooked_up es) (entry_of p engine h) found in
      record {
        reads = rw (same_refl p) refl;
        writes = rw (same_refl p) refl;
        found = found;
        entries_back = rw off cleared;
        reads_back = λ q. rw off (put-put h.read_blocks q);
        writes_back = λ q. rw off (put-put h.write_blocks q);
      }

  -- Installing the hooks on a protocol that is not hooked either succeeds, and then its calls are
  -- hooked, its entry is found with the engine and the pointers as they were, and uninstalling
  -- gives back the table and every pointer, or leaves everything as it was.
  pub uninstall-install :
      (((install p engine h).0 ≡ ok tt) × Hooked (install p engine h).1)
      ⊎ ((install p engine h).1 ≡ h)
  uninstall-install = elim (taken_lem p (entry_of p engine h) refl h.entries free) [
    | inl full ↦ inr (install-full full)
    | inr (es, (took, found, cleared)) ↦
        inl (rw (install-room es took) (refl, hooked_up_lem es found cleared))
  ]

  -- Hooks that were installed are found.
  pub find_entry-install :
      (install p engine h).0 ≡ ok tt
      → find_entry p (install p engine h).1.entries ≡ some (entry_of p engine h)
  find_entry-install good = elim (taken_lem p (entry_of p engine h) refl h.entries free) [
    | inl full ↦ absurd (install-full_fails full good)
    | inr (es, (took, found, cleared)) ↦ rw (install-room es took) found
  ]
