-- ===== src/Repository/Files/Atomic.antt =====
-- `_atomic_write` with calls that fail and a process that is killed.
use azure_ml_optimization_pl.Base.{
  String, str_eq, eq_iff, ◌≡◌, refl, ◌⊎◌, Bool, true, false, Dict, lookup, insert, lookup-insert,
  lookup-insert_self, Option, none, some, [], ◌∷◌, arith, if◌then◌else◌,
}
use azure_ml_optimization_pl.Repository.Files.{
  Folder, Event, works, raises, kills, Ending, returned, raised, killed, Faults, erase,
  atomic_write, Disked, after_ending, system, cleaned, finally_do, put_temporary, moved,
  make_temporary, write_temporary, sync_temporary, replace_state, unlink_temporary,
  remove_temporary, fill_and_clean, ◌>>>◌, fill,
}
use azure_ml_optimization_pl.Protocol.Record.{is_some}

pub lookup-erase :
    {V : Type 0} (k j : String) (d : Dict V)
    → lookup j (erase k d) ≡ (if str_eq k j then none else lookup j d)
unfolding lookup erase
lookup-erase k j [] = ground arith
lookup-erase k j ((i, v) ∷ d) =
    ground (arith, eq_iff k j, eq_iff i k, eq_iff i j, lookup-erase k j d)

-- The ending of a write of `content` into the folder `v`, with this temporary file.
pub record IsAtomic (content temporary : String) (v : Folder) (r : Ending (Unit {0})) (u : Folder)
    : Type 0 where
  -- The state is the old one or the content as a whole, and the content if the write returns.
  pub whole : (u.state ≡ v.state) ⊎ (u.state ≡ some content)
  pub done : r ≡ returned tt → u.state ≡ some content
  pub others :
      (j : String) → str_eq temporary j ≡ false → lookup j u.temporaries ≡ lookup j v.temporaries

-- What every step of a method keeps, the method keeps, however it ends.
abbrev Always : {A : Type 0} → (Folder → Type 0) → Disked A → Type 0
Always P m = (v : Folder) → P v → P (m v).1

module _ (P : Folder → Type 0) where
  system-Always :
      (e : Event) (f g : Folder → Folder)
      → ((v : Folder) → P v → P (f v))
      → ((v : Folder) → P v → P (g v))
      → Always P (system e f g)
  system-Always works f g k l v h = k v h
  system-Always (raises e) f g k l v h = l v h
  system-Always kills f g k l v h = l v h

  after_ending-Always :
      {A B : Type 0} (r : Ending A) (n : Disked B) (v : Folder)
      → Always P n
      → P v
      → P (after_ending r (λ a. n) v).1
  after_ending-Always (returned a) n v k h = k v h
  after_ending-Always (raised e) n v k h = h
  after_ending-Always killed n v k h = h

  >>>-Always :
      {A B : Type 0} (m : Disked A) (n : Disked B) → Always P m → Always P n → Always P (m >>> n)
  >>>-Always m n k l v h = after_ending-Always (m v).0 n (m v).1 l (k v h)

  cleaned-Always :
      {A : Type 0} (r : Ending A) (q : Ending (Unit {0})) (v : Folder)
      → P v
      → P (cleaned r (q, v)).1
  cleaned-Always r (returned u) v h = h
  cleaned-Always r (raised e) v h = h
  cleaned-Always r killed v h = h

  finally_do-Always :
      {A : Type 0} (r : Ending A) (n : Disked (Unit {0})) → Always P n → Always P (finally_do r n)
  finally_do-Always (returned a) n k v h = cleaned-Always (returned a) (n v).0 (n v).1 (k v h)
  finally_do-Always (raised e) n k v h = cleaned-Always (raised e) (n v).0 (n v).1 (k v h)
  finally_do-Always killed n k v h = h

module _ (faults : Faults) (content : String) (v : Folder) where
  open faults use {
    temporary, written, at_parent, at_mkstemp, at_write, at_sync, at_replace, at_exists, at_unlink,
  }

  filled :
      lookup temporary (insert temporary content (insert temporary "" v.temporaries)) ≡ some content
  filled = lookup-insert_self temporary content (insert temporary "" v.temporaries)

  abbrev SameOther : String → Folder → Type 0
  SameOther j u = lookup j u.temporaries ≡ lookup j v.temporaries

  module _ (j : String) (other : str_eq temporary j ≡ false) where
    put-SameOther :
        (text : String) (u : Folder) → SameOther j u → SameOther j (put_temporary temporary text u)
    put-SameOther text u h = ground (arith, lookup-insert temporary j text u.temporaries)

    erase-SameOther :
        (u : Folder) (o : Option String)
        → SameOther j u
        → SameOther j (record (moved o u) { temporaries = erase temporary u.temporaries })
    erase-SameOther u none h = ground (arith, lookup-erase temporary j u.temporaries)
    erase-SameOther u (some t) h = ground (arith, lookup-erase temporary j u.temporaries)

    unlink-SameOther : (b : Bool) → Always (SameOther j) (unlink_temporary faults b)
    unfolding unlink_temporary
    unlink-SameOther false u h = h
    unlink-SameOther true u h =
        system-Always (SameOther j) at_unlink _ _ (λ x k. erase-SameOther x none k) (λ x k. k) u h

    remove-SameOther : Always (SameOther j) (remove_temporary faults)
    unfolding remove_temporary
    remove-SameOther u h =
        >>>-Always (SameOther j) (system at_exists (λ x. x) (λ x. x)) _
          (system-Always (SameOther j) at_exists _ _ (λ x k. k) (λ x k. k))
          (unlink-SameOther (is_some (lookup temporary u.temporaries))) u h

    fill-SameOther : Always (SameOther j) (fill faults content)
    unfolding fill write_temporary sync_temporary replace_state
    fill-SameOther =
        >>>-Always (SameOther j) (write_temporary faults content >>> sync_temporary faults) _
          (>>>-Always (SameOther j) (write_temporary faults content) (sync_temporary faults)
            (system-Always (SameOther j) at_write _ _ (put-SameOther content)
              (put-SameOther written))
            (system-Always (SameOther j) at_sync _ _ (λ x k. k) (λ x k. k)))
          (system-Always (SameOther j) at_replace _ _
            (λ x k. erase-SameOther x (lookup temporary x.temporaries) k) (λ x k. k))

    clean-SameOther : Always (SameOther j) (fill_and_clean faults content)
    unfolding fill_and_clean
    clean-SameOther u h =
        finally_do-Always (SameOther j) (fill faults content u).0 (remove_temporary faults)
          remove-SameOther (fill faults content u).1 (fill-SameOther u h)

    atomic_write-SameOther : Always (SameOther j) (atomic_write faults content)
    unfolding atomic_write make_temporary
    atomic_write-SameOther =
        >>>-Always (SameOther j) (make_temporary faults) (fill_and_clean faults content)
          (>>>-Always (SameOther j) (system at_parent (λ x. x) (λ x. x)) _
            (system-Always (SameOther j) at_parent _ _ (λ x k. k) (λ x k. k))
            (system-Always (SameOther j) at_mkstemp _ _ (put-SameOther "") (λ x k. k)))
          clean-SameOther

  -- Wherever a write fails or is killed: the state is the old one or the new content as a whole, it
  -- is the new content if the write returns, and no file but the temporary one changes.
  pub atomic_write-IsAtomic :
      let (r, u) = atomic_write faults content v in IsAtomic content temporary v r u
  unfolding atomic_write
  atomic_write-IsAtomic = record {
    whole = ground (arith, filled);
    done = ground (arith, filled);
    others = λ j other. atomic_write-SameOther j other v refl;
  }
