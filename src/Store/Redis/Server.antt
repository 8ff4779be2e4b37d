-- ===== src/Store/Redis/Server.antt =====
-- The server behind internal/store/db/redis: what the commands that the client sends do to the
-- database, as Redis documents them, and the view of the database as a map of stored objects.
-- A key that SADD or HSET name holds a set or a hash, or nothing.
use app_functions_sdk_go.Prelude.{
  map, ◌||◌, [], ◌∷◌, none, some, true, false, Str, Bytes, Bool, Option, List, ◌===◌, ◌≡◌, ◌⊎◌,
  is_empty, if◌then◌else◌, Ensures, ◌&&◌,
}
use app_functions_sdk_go.AppContext.{Result, ok, err}
use app_functions_sdk_go.Store.Redis.{Command, Connection, set, sadd, srem, hset, unlink}

-- Strings, members of sets, and fields of hashes by key.
pub record Db : Type 0 where
  pub strings : Str → Option Bytes
  pub sets : Str → Str → Bool
  pub hashes : Str → Str → Option Str

-- SET and UNLINK drop what the key held, of whatever type.
abbrev pub without : Str → Db → Db
without k db = record {
  strings = λ j. if j === k then none else db.strings j;
  sets = λ j x. if j === k then false else db.sets j x;
  hashes = λ j f. if j === k then none else db.hashes j f;
}

abbrev pub apply : Command → Db → Db
apply (set k bytes) db = record (without k db) {
  strings = λ j. if j === k then some bytes else db.strings j;
}
apply (sadd k x) db = record db {
  sets = λ j y. if (j === k) && (y === x) then true else db.sets j y;
}
apply (srem k x) db = record db {
  sets = λ j y. if (j === k) && (y === x) then false else db.sets j y;
}
apply (hset k f v) db = record db {
  hashes = λ j g. if (j === k) && (g === f) then some v else db.hashes j g;
}
apply (unlink k) db = without k db

abbrev pub run : List Command → Db → Db
run [] db = db
run (c ∷ cs) db = run cs (apply c db)

-- A transaction is executed as a whole and gives a reply to each command. When the client gets
-- an error instead, it was executed or it was not.
abbrev pub Executed : List Command → Db → Result (List Bool) → Db → Type 0
Executed commands db (ok replies) db' =
    (is_empty replies ≡ is_empty commands) × (db' ≡ run commands db)
Executed commands db (err e) db' = (db' ≡ db) ⊎ (db' ≡ run commands db)

-- What is read is read of the database, and reading leaves it as it is.
abbrev pub Reads : {A : Type 0} → (A → Type 0) → Db → Result A → Db → Type 0
Reads Q db (ok a) db' = Q a × (db' ≡ db)
Reads Q db (err e) db' = db' ≡ db

abbrev pub elem : Str → List Str → Bool
elem x [] = false
elem x (y ∷ ys) = (x === y) || elem x ys

-- MGET gives nil for a key without a string.
abbrev pub bytes_of : Option Bytes → Bytes
bytes_of none = []
bytes_of (some bytes) = bytes

-- A server that behaves as documented.
pub record IsServer {W : Type 0} (conn : Connection W) (view : W → Db) : Type 0 where
  pub exists :
      (k : Str) (w : W)
      → Ensures
          (λ r w'. Reads (λ b. b ≡ false → (view w).strings k ≡ none) (view w) r (view w'))
          (conn.exists k w)
  pub smembers :
      (k : Str) (w : W)
      → Ensures
          (λ r w'.
            Reads (λ ids. (id : Str) → elem id ids ≡ (view w).sets k id) (view w) r (view w'))
          (conn.smembers k w)
  pub mget :
      (ids : List Str) (w : W)
      → Ensures
          (λ r w'.
            Reads
              (λ values. values ≡ map (λ id. bytes_of ((view w).strings id)) ids)
              (view w)
              r
              (view w'))
          (conn.mget ids w)
  pub hget :
      (k f : Str) (w : W)
      → Ensures
          (λ r w'. Reads (λ v. (view w).hashes k f ≡ some v) (view w) r (view w'))
          (conn.hget k f w)
  pub exec :
      (commands : List Command) (w : W)
      → Ensures (λ r w'. Executed commands (view w) r (view w')) (conn.exec commands w)
