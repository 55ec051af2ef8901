-- ===== src/Target/Mem/Effects.antt =====
-- What the operations on packages and containers do to what is asked of them later.
use scampi.Base.{
  ◌≡◌, refl, ap, ◌∙◌, Bool, true, false, not, ◌&&◌, ◌||◌, some, List, [], ◌∷◌, Bytes, bytes_eq,
  bytes_beq, elem, arith, lookup-insert, lookup-delete, lookup-insert_self, lookup-insert_ne,
  lookup-delete_self, insert, delete, ok, err,
}
use scampi.Target.Kinds.{not_exist, ContainerInfo}
use scampi.Target.Mem.{MemTarget, get}
use scampi.Target.Mem.System.{
  is_installed, install_pkgs, add_pkgs, drop_pkgs, remove_pkgs, update_cache, inspect_container,
  create_container, start_container, stop_container, remove_container, started,
}

get-add_pkgs :
    (ps : List Bytes) (p : Bytes) (m : List (Bytes × Bool))
    → get false p (add_pkgs ps m) ≡ (elem ps p || get false p m)
get-add_pkgs [] p m = refl
get-add_pkgs (q ∷ ps) p m =
    ground (arith, get-add_pkgs ps p (insert q true m), lookup-insert q p true m)

get-drop_pkgs :
    (ps : List Bytes) (p : Bytes) (m : List (Bytes × Bool))
    → get false p (drop_pkgs ps m) ≡ (not (elem ps p) && get false p m)
get-drop_pkgs [] p m = refl
get-drop_pkgs (q ∷ ps) p m = ground (arith, get-drop_pkgs ps p (delete q m), lookup-delete q p m)

-- With a fresh cache, which `UpdateCache` leaves, an installation succeeds, and then exactly the
-- packages of the list and those of before are installed; a removal leaves those of before that
-- are not in its list.
pub install_pkgs-update_cache :
    (ps qs : List Bytes) (m : MemTarget)
    → (n : MemTarget) × (install_pkgs ps (update_cache m) ≡ ok n)
      × ((p : Bytes) → is_installed n p ≡ (elem ps p || is_installed m p))
      × ((p : Bytes)
          → is_installed (remove_pkgs qs n) p
            ≡ (not (elem qs p) && (elem ps p || is_installed m p)))
unfolding install_pkgs update_cache is_installed remove_pkgs
install_pkgs-update_cache ps qs m = (
  record m { cache_stale = false; pkgs = add_pkgs ps m.pkgs },
  refl,
  λ p. get-add_pkgs ps p m.pkgs,
  λ p.
      get-drop_pkgs qs p (add_pkgs ps m.pkgs)
      ∙ ap (λ b. not (elem qs p) && b) (get-add_pkgs ps p m.pkgs),
)

-- The container that was created, as it is before it runs.
abbrev pub stopped : ContainerInfo → ContainerInfo
stopped opts = record opts { running = false; health_status = [] }

-- A container that is created is inspected as its options say, not running; started, it runs; and
-- stopped, it is inspected as started but not running. The other containers are not touched. A
-- container that was removed cannot be started.
pub create-start-stop :
    (opts : ContainerInfo) (m : MemTarget)
    → let made = create_container opts m in
      (n : MemTarget) × (inspect_container made opts.name ≡ some (stopped opts))
      × (start_container opts.name made ≡ ok n)
      × (inspect_container n opts.name ≡ some (started (stopped opts)))
      × (inspect_container (stop_container opts.name n) opts.name
          ≡ some (record (started (stopped opts)) { running = false }))
      × ((other : Bytes)
          → bytes_beq opts.name other ≡ false
          → inspect_container (stop_container opts.name n) other ≡ inspect_container m other)
      × (start_container opts.name (remove_container opts.name n) ≡ err (not_exist opts.name))
unfolding create_container inspect_container start_container stop_container remove_container
create-start-stop opts m =
    let m1 = insert opts.name (stopped opts) m.containers in
    let m2 = insert opts.name (started (stopped opts)) m1 in
    let e1 = lookup-insert_self opts.name (stopped opts) m.containers in
    let e2 = lookup-insert_self opts.name (started (stopped opts)) m1 in
    let back = record (started (stopped opts)) { running = false } in
    (
      record m { containers = m2 },
      e1,
      rw (e1) refl,
      e2,
      rw (e2) (lookup-insert_self opts.name back m2),
      λ other ne. rw (e2) (
          lookup-insert_ne opts.name other back m2 ne
          ∙ lookup-insert_ne opts.name other (started (stopped opts)) m1 ne
          ∙ lookup-insert_ne opts.name other (stopped opts) m.containers ne),
      rw (lookup-delete_self opts.name m2) refl,
    )
