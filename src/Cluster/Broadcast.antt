-- ===== src/Cluster/Broadcast.antt =====
-- `runOnNodes` of cluster.go: one goroutine for each node, which ends in any order, and the choice of
-- a result among those that have come.
pub mod Queues
pub mod Outcomes
use docker_stuff.Base.{◌≡◌, ◌⊎◌, Bool, true, false, List, [], ◌∷◌, ◌++◌, if◌then◌else◌}

-- What a goroutine gets from its node: a value, the status 404, the error that stands for what is
-- not found, or another error.
pub data Reply (V E : Type 0) : Type 0 where
  value : V → Reply V E
  status_not_found : Reply V E
  expected_error : Reply V E
  other_error : E → Reply V E

pub data Outcome (V E : Type 0) : Type 0 where
  returned : V → Outcome V E
  an_error : E → Outcome V E
  error_not_found : Outcome V E

-- The goroutines that have not ended, and the two channels.
pub record Run (V E : Type 0) : Type 0 where
  pub pending : List (Reply V E)
  pub results : List V
  pub errors : List E

module _ {V E : Type 0} where
  -- What a goroutine sends.
  abbrev pub sent : Reply V E → Run V E → Run V E
  sent (value v) s = record s { results = s.results ++ v ∷ [] }
  sent status_not_found s = s
  sent expected_error s = s
  sent (other_error e) s = record s { errors = s.errors ++ e ∷ [] }

  abbrev pub started : List (Reply V E) → Run V E
  started replies = record { pending = replies; results = []; errors = [] }

  -- The end of one goroutine.
  pub data Step (s : Run V E) : Run V E → Type 0 where
    end :
        (front back : List (Reply V E)) (r : Reply V E)
        → s.pending ≡ front ++ r ∷ back
        → Step s (sent r (record s { pending = front ++ back }))

  pub data Reach (s : Run V E) : Run V E → Type 0 where
    stay : Reach s s
    after : {t u : Run V E} → Reach s t → Step t u → Reach s u

  -- The choices of the `select`s. With `wait`, all goroutines have ended, and the default is taken
  -- when both channels are empty. Without, a channel that has something can be chosen at any time,
  -- and when all have ended also `finish`, behind which only the results are looked at.
  pub data Choice (s : Run V E) : Bool → Outcome V E → Type 0 where
    wait_value :
        (v : V) (more : List V) → s.pending ≡ [] → s.results ≡ v ∷ more → Choice s true (returned v)
    wait_error :
        (e : E) (more : List E) → s.pending ≡ [] → s.errors ≡ e ∷ more → Choice s true (an_error e)
    wait_default : s.pending ≡ [] → s.results ≡ [] → s.errors ≡ [] → Choice s true error_not_found
    a_value : (v : V) (more : List V) → s.results ≡ v ∷ more → Choice s false (returned v)
    one_error : (e : E) (more : List E) → s.errors ≡ e ∷ more → Choice s false (an_error e)
    finished_value :
        (v : V) (more : List V)
        → s.pending ≡ []
        → s.results ≡ v ∷ more
        → Choice s false (returned v)
    finished_default : s.pending ≡ [] → s.results ≡ [] → Choice s false error_not_found

  -- What a call of `runOnNodes` can return when the nodes give these replies.
  pub record Returns (replies : List (Reply V E)) (wait : Bool) (o : Outcome V E) : Type 0 where
    pub run : Run V E
    pub reached : Reach (started replies) run
    pub choice : Choice run wait o
