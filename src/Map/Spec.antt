-- ===== src/Map/Spec.antt =====
-- What the map promises: a partial function from client IDs to sockets, with no trace of the array.
use cdtp.Common.{ℕ, Bool, true, false, ◌==◌, if◌then◌else◌, Option, none, some, List, [], ◌∷◌}
use cdtp.Map.Methods.{is_some, or_null}

-- A call of one of the four functions of the map, and what it returns.
pub data Call {ℓ} (A : Type ℓ) : Type ℓ where
  contains : ℕ → Call A
  get : ℕ → Call A
  set : ℕ → Option A → Call A
  pop : ℕ → Call A

pub data Reply {ℓ} (A : Type ℓ) : Type ℓ where
  flag : Bool → Reply A
  socket : Option A → Reply A

module _ {ℓ} {A : Type ℓ} where
  abbrev pub update : (ℕ → Option (Option A)) → ℕ → Option (Option A) → ℕ → Option (Option A)
  update f id v q = if id == q then v else f q

  -- one call: the reply, and the clients that are there after it
  unfoldable pub answer : (ℕ → Option (Option A)) → Call A → Reply A × (ℕ → Option (Option A))
  answer f (contains id) = (flag (is_some (f id)), f)
  answer f (get id) = (socket (or_null (f id)), f)
  answer f (set id sock) =
      if is_some (f id) then (flag false, f) else (flag true, update f id (some sock))
  answer f (pop id) = (socket (or_null (f id)), update f id none)

  unfoldable pub answers : (ℕ → Option (Option A)) → List (Call A) → List (Reply A)
  unfolding answer
  answers f [] = []
  answers f (call ∷ calls) = let (reply, g) = answer f call in reply ∷ answers g calls
