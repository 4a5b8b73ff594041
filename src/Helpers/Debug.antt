-- ===== src/Helpers/Debug.antt =====
-- pkg/helpers/debug.go and pkg/helpers/release.go: what is printed for debugging, in each of the two
-- builds. The rest of the model leaves it out. `print` is the logger of `log.New`, which adds its
-- prefix and the time; operands of `Println` are given as their texts.
use hambone.Base.{String, ◌<>◌, List, join}
use hambone.Helpers.{indent}

-- The build tag `debug`, or its absence
pub data Build : Type 0 where
  debug release : Build

module _ {W : Type 0} (print : String → W → W) where
  unfoldable pub debugln : Build → List String → W → W
  debugln debug args w = print (join " " args <> "\n") w
  debugln release args w = w

  -- `sprintf` is `fmt.Sprintf`.
  unfoldable pub debugf :
      {A : Type 0} → (String → List A → String) → Build → String → List A → W → W
  debugf sprintf debug format args w = print (sprintf (format <> "\n") args) w
  debugf sprintf release format args w = w

  unfoldable pub debug_exec_output : Build → String → String → List String → W → W
  debug_exec_output debug output cmd args w =
      print
        ("Ran `"
          <> (cmd
              <> (" "
                  <> (join " " args
                      <> ("` and got the following output:\n\t" <> (indent output <> "\n"))))))
        w
  debug_exec_output release output cmd args w = w
