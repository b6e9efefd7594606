-- ===== src/Publications/Scheduler.antt =====
-- The scheduler of the publication service (server/publication/scheduler.go), and its race with a worker:
-- it hands a publication over before it marks it as in progress.
use agntcy_dir.Base.{ℕ, Option, none, some, List, [], ◌∷◌, ◌++◌, length, ltb, if◌then◌else◌}
use agntcy_dir.Base.Text.{GoString}
use agntcy_dir.Base.Result.{Result, ok, err}
use agntcy_dir.Store.Cache.{StoreApi}
use agntcy_dir.Publications.Rows.{
  Publication, PublicationTable, pending, in_progress, update_publication_status,
}
use agntcy_dir.Publications.Worker.{Router, Announcing, process_publication}

-- The items in the work queue.
abbrev pub WorkQueue : Type 0
WorkQueue = List GoString

module _ {Query Fault : Type 0} (table : PublicationTable Query Fault) (capacity : ℕ)
    (Rest : Type 0) where
  -- The database, the queue, and what the workers use beside them.
  abbrev pub Shared : Type 0
  Shared = table.State × WorkQueue × Rest

  -- The send in a select with a default: an item that finds no room is not sent.
  unfoldable pub offer : GoString → WorkQueue → Option WorkQueue
  offer id q = if ltb (length q) capacity then some (q ++ id ∷ []) else none

  abbrev pub marked : GoString → Shared → Shared
  marked id (s, q, x) = ((update_publication_status table id in_progress s).1, q, x)

  -- One publication; `others` is what the workers do between the send and the update of the status.
  unfoldable pub dispatch_publication : (Shared → Shared) → GoString → Shared → Shared
  dispatch_publication others id (s, q, x) = elim (offer id q) [
    | none ↦ (s, q, x)
    | some q' ↦ marked id (others (s, q', x))
  ]

  unfoldable pub dispatch_publications :
      (Shared → Shared) → List (Publication Query) → Shared → Shared
  dispatch_publications others [] t = t
  dispatch_publications others (p ∷ ps) t =
      dispatch_publications others ps (dispatch_publication others p.id t)

  abbrev pub publications_or_none :
      Result Fault (List (Publication Query)) → List (Publication Query)
  publications_or_none (ok ps) = ps
  publications_or_none (err e) = []

  -- processPendingPublications
  unfoldable pub process_pending_publications : (Shared → Shared) → Shared → Shared
  process_pending_publications others (s, q, x) =
      dispatch_publications others (publications_or_none (table.find pending s)) (s, q, x)

module _ {Query Rec Meta Fault : Type 0} (table : PublicationTable Query Fault) (capacity : ℕ)
    (store : StoreApi Rec Meta Fault) (router : Router Rec Fault)
    (get_record_cids : List Query → Result Fault (List GoString)) where
  abbrev pub World : Type 0
  World = Shared table capacity (Announcing table store router get_record_cids)

  abbrev pub worked :
      WorkQueue → table.State × Announcing table store router get_record_cids → World
  worked q (s, x) = (s, q, x)

  -- One round of Worker.Run: the first item of the queue, if there is one.
  unfoldable pub work : World → World
  work (s, [], x) = (s, [], x)
  work (s, id ∷ q, x) = worked q (process_publication table store router get_record_cids id (s, x))

  unfoldable pub dispatch : (World → World) → GoString → World → World
  dispatch = dispatch_publication table capacity (Announcing table store router get_record_cids)
