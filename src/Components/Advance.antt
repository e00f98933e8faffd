-- ===== src/Components/Advance.antt =====
-- `Component.advance` and `Component.publish` of src/radical/pilot/utils/component.py. Things are tasks
-- or pilots, so the type of states is a parameter. A queue is a number; `output.put` and the publisher
-- are calls that leave the component, kept in the result. The source sorts the things into buckets
-- first and then clears `$all` and `$set` in them: the buckets hold the same objects, so here the
-- cleared things are sorted.
use radical_pilot.Prelude.{
  ℕ, Bool, true, false, if◌then◌else◌, List, [], ◌∷◌, map, Option, none, some, Result, ok, raise,
  key_error, runtime_error, ◌>>=◌, find, String,
}
use radical_pilot.Components.Buckets.{sort_into}

pub data Kind : Type 0 where
  task pilot : Kind

pub record Thing (S : Type 0) : Type 0 where
  pub uid : ℕ
  pub type : Kind
  pub state : S
  pub all : Bool
  pub set : Option (List ℕ)
  pub fields : List (ℕ × String)

-- What is sent over the state channel: a whole thing, or its uid, type, state and chosen fields.
pub data Update (S : Type 0) : Type 0 where
  whole : Thing S → Update S
  part : ℕ → Kind → S → List (ℕ × String) → Update S

pub record Advanced (S : Type 0) : Type 0 where
  pub things : List (Thing S)
  pub published : List (Update S)
  pub put : List (ℕ × List (Thing S))

unfoldable pub with_field :
    ℕ → Option String → Result (List (ℕ × String)) → Result (List (ℕ × String))
with_field k none rest = raise key_error
with_field k (some v) rest = do vs ← rest; ok ((k, v) ∷ vs)

-- `for key in thing['$set']: tmp[key] = thing[key]`
unfoldable pub pick_fields : List ℕ → List (ℕ × String) → Result (List (ℕ × String))
pick_fields [] fields = ok []
pick_fields (k ∷ ks) fields = with_field k (find k fields) (pick_fields ks fields)

unfoldable pub set_fields : Option (List ℕ) → List (ℕ × String) → Result (List (ℕ × String))
set_fields none fields = ok []
set_fields (some keys) fields = pick_fields keys fields

module _ {S : Type 0} where
  -- One thing as it is published: `$all` and `$set` are gone from it where they are used.
  unfoldable pub publish_thing : (S → Bool) → Thing S → Result (Thing S × Update S)
  publish_thing final thing =
      let bare = record thing { all = false; set = none } in
      if thing.all
      then ok (bare, whole bare)
      else if final thing.state
      then ok (thing, whole thing)
      else (set_fields thing.set thing.fields >>= λ fields.
          ok (record thing { set = none }, part thing.uid thing.type thing.state fields))

  unfoldable pub publish_things :
      (S → Bool) → List (Thing S) → Result (List (Thing S) × List (Update S))
  publish_things final [] = ok ([], [])
  publish_things final (x ∷ xs) = do
    one ← publish_thing final x
    rest ← publish_things final xs
    ok (one.0 ∷ rest.0, one.1 ∷ rest.1)

  -- `thing['state'] = state` where a state is given
  unfoldable pub assign_state : Option S → Thing S → Thing S
  assign_state none thing = thing
  assign_state (some s) thing = record thing { state = s }

  -- `del(thing['$all'])`
  unfoldable pub drop_all : Thing S → Thing S
  drop_all thing = record thing { all = false }

-- `_outputs`, where a state can have no entry or an empty one, and whether a publisher is registered.
pub record Routes (S : Type 0) : Type 0 where
  pub outputs : S → Option (Option ℕ)
  pub publisher : Bool

-- No entry and an empty entry both drop the thing.
unfoldable pub registered : Option (Option ℕ) → Option ℕ
registered none = none
registered (some output) = output

unfoldable pub put_bucket {ℓ} :
    {T : Type ℓ} → Option ℕ → List T → List (ℕ × List T) → List (ℕ × List T)
put_bucket none xs rest = rest
put_bucket (some q) xs rest = (q, xs) ∷ rest

module _ {S : Type 0} (final : S → Bool) where
  -- The queue that things in a state are put on, if any.
  unfoldable pub target_of : Routes S → S → Option ℕ
  target_of r s = if final s then none else registered (r.outputs s)

  -- The loop that puts the buckets on the outputs.
  unfoldable pub put_buckets : Routes S → List (S × List (Thing S)) → List (ℕ × List (Thing S))
  put_buckets r [] = []
  put_buckets r ((s, xs) ∷ d) = put_bucket (target_of r s) xs (put_buckets r d)

  -- `publish`: the things as they are afterwards, and the message.
  unfoldable pub publish_all :
      Routes S → Bool → List (Thing S) → Result (List (Thing S) × List (Update S))
  publish_all r false things = ok (things, [])
  publish_all r true things = do
    sent ← publish_things final things
    if r.publisher then ok sent else raise runtime_error

  unfoldable pub advance :
      Discrete S
      → Routes S
      → List (Thing S)
      → Option S
      → (publish push : Bool) → Result (Advanced S)
  advance dec r [] state publish push = ok (record { things = []; published = []; put = [] })
  advance dec r (x ∷ xs) state publish push = do
    sent ← publish_all r publish (map (assign_state state) (x ∷ xs))
    let things = map drop_all sent.0
    let buckets = sort_into dec (λ t. t.state) things []
    ok (record {
      things = things;
      published = sent.1;
      put = if push then put_buckets r buckets else [];
    })
