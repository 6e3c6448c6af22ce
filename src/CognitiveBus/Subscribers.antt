-- ===== src/CognitiveBus/Subscribers.antt =====
-- Subscribe of internal/agent/cognitive_bus.go, and the function that it returns.
use Prim.Native.String.{String}
use text.Mathlib.Text.{◌==◌ as str_eq}
use scalpel_cli.Common.{ℕ, false, List, [], ◌∷◌, ◌++◌, ◌==◌, if◌then◌else◌, length}
use scalpel_cli.Common.Dict.{Dict, insert}
use scalpel_cli.CognitiveBus.{Bus, subscribed, contains}

-- The types of `Subscribe`: none is all.
abbrev pub or_all : List String → List String
or_all [] = "" ∷ []
or_all (t ∷ ts) = t ∷ ts

unfoldable pub add_subscriber : ℕ → List String → Bus → Bus
add_subscriber ch [] b = b
add_subscriber ch (t ∷ ts) b =
    add_subscriber ch ts
      (record b { subscribers = insert t (subscribed t b ++ ch ∷ []) b.subscribers })

-- The new channel is the next number.
unfoldable pub subscribe : List String → Bus → Bus × ℕ
subscribe types b = (
  add_subscriber (length b.channels) (or_all types)
      (record b { channels = b.channels ++ record { queue = []; is_closed = false } ∷ [] }),
  length b.channels,
)

unfoldable pub without : ℕ → List ℕ → List ℕ
without ch [] = []
without ch (i ∷ is) = if i == ch then is else i ∷ without ch is

unfoldable pub delete : String → Dict (List ℕ) → Dict (List ℕ)
delete t [] = []
delete t ((u, l) ∷ d) = if str_eq u t then delete t d else (u, l) ∷ delete t d

-- A list that becomes empty is deleted with its key.
unfoldable pub store : String → List ℕ → Dict (List ℕ) → Dict (List ℕ)
store t [] d = delete t d
store t (i ∷ is) d = insert t (i ∷ is) d

-- The function that `Subscribe` returns, for its copy of the types.
unfoldable pub remove_subscriber : ℕ → List String → Bus → Bus
remove_subscriber ch [] b = b
remove_subscriber ch (t ∷ ts) b = remove_subscriber ch ts (
    if contains ch (subscribed t b)
    then record b { subscribers = store t (without ch (subscribed t b)) b.subscribers }
    else b)

unfoldable pub unsubscribe : ℕ → List String → Bus → Bus
unsubscribe ch types b = remove_subscriber ch (or_all types) b
