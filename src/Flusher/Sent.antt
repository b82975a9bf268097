-- ===== src/Flusher/Sent.antt =====
-- flusher.go: how many statements each loop over the rows of a flush sends.
use beeorm.Prelude.{
  ◌≡◌, refl, sym, subst, ◌∙◌, ◌≤◌, ◌+◌, ℕ, suc, Bool, true, false, none, some, List, [], ◌∷◌, Map,
  Text, length, length-append, ok, arith, if◌then◌else◌,
}
use beeorm.Flusher.World.{Ref, Schema, Model, World, set_entity, exec_db}
use beeorm.Flusher.Loops.{and_then-keeps, and_then-leads}
use beeorm.Flusher.Pending.{add_to_log_queue}
use beeorm.Flusher.Execute.{
  InsertRow, InsertGroup, build_bind, execute_delete, execute_rows, execute_deletes,
  execute_updates, mark_inserted, inserted_rows, execute_inserts,
}
use beeorm.Flusher.Frame.{SameData, IsFramed}
use beeorm.Flusher.Frame.Caches.{log_stable, inserted_stable, deleted_stable}

-- At most `n` statements were sent, and these queries wait.
pub record Sent {m : Model} (queries : Map Text (List Text)) (n : ℕ) (w : World m) : Type 0 where
  pub bound : length w.history ≤ n
  pub waiting : w.update_sqls ≡ queries

-- What a statement for several rows adds: the first row sends it.
abbrev with_first : Bool → ℕ → ℕ
with_first executed n = if executed then n else suc n

module _ {m : Model} {u : Map Text (List Text)} where
  pub SameData-Sent : (n : ℕ) (w w' : World m) → SameData w w' → Sent u n w → Sent u n w'
  SameData-Sent n w w' h k = record {
    bound = subst (λ sent. length sent ≤ n) (sym h.history) k.bound;
    waiting = h.update_sqls ∙ k.waiting;
  }

  pub Sent-IsFramed : (n : ℕ) → IsFramed {m = m} (Sent u n)
  unfolding set_entity
  Sent-IsFramed n = record {
    same = λ w w' h k. record {
      bound = subst (λ sent. length sent ≤ n) (sym h.history) k.bound;
      waiting = h.update_sqls ∙ k.waiting;
    };
    written = λ r e w t refs i k. record { bound = k.bound; waiting = k.waiting };
  }

  pub more_sent : (n k : ℕ) (w : World m) → n ≤ k → Sent u n w → Sent u k w
  more_sent n k w le h = record { bound = omega (arith, le, h.bound); waiting = h.waiting }

  exec_sent :
      (n : ℕ) (pool sql : Text) (w : World m) → Sent u n w → Sent u (suc n) (exec_db pool sql w).1
  unfolding exec_db
  exec_sent n pool sql w h = record {
    bound = omega (arith, h.bound, length-append w.history ((pool, sql) ∷ []));
    waiting = h.waiting;
  }

  build_sent : (n : ℕ) (r : Ref) (w : World m) → Sent u n w → Sent u n (build_bind m r w).1
  unfolding build_bind
  build_sent n r w h = (Sent-IsFramed n).written r _ w refl refl refl h

  first_sent :
      (n : ℕ) (executed : Bool) (pool sql : Text) (w : World m)
      → Sent u n w
      → Sent u (with_first executed n) (if executed then (ok 0, w) else exec_db pool sql w).1
  first_sent n true pool sql w h = h
  first_sent n false pool sql w h = exec_sent n pool sql w h

  weaken_first :
      (n : ℕ) (executed : Bool) (w : World m) → Sent u n w → Sent u (with_first executed n) w
  weaken_first n true w h = h
  weaken_first n false w h = more_sent n (suc n) w (omega arith) h

  delete_sent :
      (n : ℕ) (schema : Schema) (sql : Text) (executed : Bool) (id : ℕ) (r : Ref) (w : World m)
      → Sent u n w
      → Sent u (with_first executed n) (execute_delete m schema sql executed id r w).1
  unfolding execute_delete
  delete_sent n schema sql executed id r w h =
      let next = with_first executed n in
      let framed = Sent-IsFramed next in
      and_then-leads (Sent u n) (Sent u next) (build_bind m r w) _ (build_sent n r w h)
        (weaken_first n executed)
        (λ d built kept.
          and_then-keeps (Sent u next) _ _
            (first_sent n executed schema.mysql_pool_name sql built kept)
            (λ result sent kept_sent.
              and_then-keeps (Sent u next) (add_to_log_queue m r id (some d.current) none sent) _
                (log_stable (Sent u next) framed r id (some d.current) none sent kept_sent)
                (λ _ logged.
                  deleted_stable (Sent u next) framed schema id d.bind d.current logged)))

  rows_sent :
      (n : ℕ) (schema : Schema) (sql : Text) (binds : Map ℕ Ref) (w : World m)
      → Sent u n w
      → Sent u n (execute_rows m schema sql true binds w).1
  unfolding execute_rows
  rows_sent n schema sql [] w h = h
  rows_sent n schema sql ((id, r) ∷ rest) w h =
      and_then-keeps (Sent u n) (execute_delete m schema sql true id r w) _
        (delete_sent n schema sql true id r w h) (λ _. rows_sent n schema sql rest)

  table_sent :
      (n : ℕ) (schema : Schema) (sql : Text) (binds : Map ℕ Ref) (w : World m)
      → Sent u n w
      → Sent u (suc n) (execute_rows m schema sql false binds w).1
  unfolding execute_rows
  table_sent n schema sql [] w h = more_sent n (suc n) w (omega arith) h
  table_sent n schema sql ((id, r) ∷ rest) w h =
      and_then-keeps (Sent u (suc n)) (execute_delete m schema sql false id r w) _
        (delete_sent n schema sql false id r w h) (λ _. rows_sent (suc n) schema sql rest)

  pub deletes_sent :
      (binds : Map ℕ (Map ℕ Ref)) (n : ℕ) (w : World m)
      → Sent u n w
      → Sent u (length binds + n) (execute_deletes m binds w).1
  unfolding execute_deletes
  deletes_sent [] n w h = more_sent n (0 + n) w (omega arith) h
  deletes_sent ((t, binds) ∷ rest) n w h =
      and_then-leads (Sent u (suc n)) (Sent u (suc (length rest) + n)) _ _
        (table_sent n (m.schema t) _ binds w h)
        (λ v. more_sent (suc n) (suc (length rest) + n) v (omega arith))
        (λ _ v k.
          more_sent (length rest + suc n) (suc (length rest) + n) _ (omega arith)
            (deletes_sent rest (suc n) v k))

  pub updates_sent :
      (queries : Map Text (List Text)) (n : ℕ) (w : World m)
      → Sent u n w
      → Sent u (length queries + n) (execute_updates m queries w).1
  unfolding execute_updates
  updates_sent [] n w h = more_sent n (0 + n) w (omega arith) h
  updates_sent ((pool, qs) ∷ rest) n w h =
      and_then-leads (Sent u (suc n)) (Sent u (suc (length rest) + n)) _ _ (exec_sent n pool _ w h)
        (λ v. more_sent (suc n) (suc (length rest) + n) v (omega arith))
        (λ _ v k.
          more_sent (length rest + suc n) (suc (length rest) + n) _ (omega arith)
            (updates_sent rest (suc n) v k))

  mark_sent : (n id : ℕ) (r : Ref) (w : World m) → Sent u n w → Sent u n (mark_inserted m id r w).1
  unfolding mark_inserted set_entity
  mark_sent n id r w h = record { bound = h.bound; waiting = h.waiting }

  inserted_rows_sent :
      (n : ℕ) (pool : Text) (rows : List (InsertRow m.Value)) (id : ℕ) (w : World m)
      → Sent u n w
      → Sent u n (inserted_rows m pool id rows w).1
  unfolding inserted_rows
  inserted_rows_sent n pool [] id w h = h
  inserted_rows_sent n pool (row ∷ rest) id w h =
      and_then-keeps (Sent u n) (mark_inserted m id row.entity w) _ (mark_sent n id row.entity w h)
        (λ _ saved kept.
          and_then-keeps (Sent u n) _ _
            (inserted_stable (Sent u n) (Sent-IsFramed n) row.entity _ row.bind saved kept)
            (λ _. inserted_rows_sent n pool rest _))

  pub inserts_sent :
      (inserts : Map ℕ (InsertGroup m.Value)) (n : ℕ) (w : World m)
      → Sent u n w
      → Sent u (length inserts + n) (execute_inserts m inserts w).1
  unfolding execute_inserts
  inserts_sent [] n w h = more_sent n (0 + n) w (omega arith) h
  inserts_sent ((t, group) ∷ rest) n w h =
      let total = suc (length rest) + n in
      and_then-leads (Sent u (suc n)) (Sent u total) _ _
        (exec_sent n (m.schema t).mysql_pool_name _ w h)
        (λ v. more_sent (suc n) total v (omega arith))
        (λ id sent kept.
          and_then-leads (Sent u (suc n)) (Sent u total) _ _
            (inserted_rows_sent (suc n) (m.schema t).mysql_pool_name group.rows id sent kept)
            (λ v. more_sent (suc n) total v (omega arith))
            (λ _ v k.
              more_sent (length rest + suc n) total _ (omega arith)
                (inserts_sent rest (suc n) v k)))
