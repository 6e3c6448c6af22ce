-- ===== src/CognitiveBus/Closing.antt =====
-- Shutdown of internal/agent/cognitive_bus.go, statement by statement.
use scalpel_cli.Common.{
  ℕ, true, List, [], ◌∷◌, ◌++◌, none, some, ◌==◌, if◌then◌else◌, get_elem?, set,
}
use scalpel_cli.Common.Dict.{Dict}
use scalpel_cli.CognitiveBus.{
  Channel, Phase, Bus, unique, running, flagged, stopping, closing, finished,
}

-- The channels of the subscribers are closed; closing one twice would panic, so each is closed once.
abbrev pub shut_channel : Channel → Channel
shut_channel k = record k { is_closed = true }

unfoldable pub close_channel : List Channel → ℕ → List Channel
close_channel ks ch = elim (get_elem? ks ch) [ some k ↦ set ks ch (shut_channel k) | none ↦ ks ]

unfoldable pub close_all : List ℕ → List Channel → List Channel
close_all [] ks = ks
close_all (ch ∷ chs) ks = close_all chs (close_channel ks ch)

unfoldable pub all_subscribers : Dict (List ℕ) → List ℕ
all_subscribers [] = []
all_subscribers ((t, l) ∷ d) = l ++ all_subscribers d

-- The next statement of `Shutdown`; a wait that has not ended changes nothing.
unfoldable pub shutdown_step : Bus → Bus
shutdown_step b = elim b.phase [
  | running ↦ record b { phase = Phase.flagged }
  | flagged ↦ record b { phase = Phase.stopping }
  | stopping ↦
      if b.active_posts == 0
      then record b {
        phase = Phase.closing;
        channels = close_all (unique (all_subscribers b.subscribers)) b.channels;
        subscribers = [];
      }
      else b
  | closing ↦ if b.processing == 0 then record b { phase = Phase.finished } else b
  | finished ↦ b
]
