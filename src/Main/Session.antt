-- ===== src/Main/Session.antt =====
-- Sessions: commands one after the other, with the user's changes of local files in between.
use marimo_operator.Base.{◌≡◌, Bool, true, not}
use marimo_operator.Exec.{FileTable, Outside, World}
use marimo_operator.Exec.Keeps.{Keeps}
use marimo_operator.Main.{Command, delete, cli}

-- The commands that are not told to delete the volume claim.
unfoldable pub keeps_volume : Command → Bool
keeps_volume (delete file ns delete_pvc no_sync) = not delete_pvc
keeps_volume c = true

-- One command, or any change of the local files by the user.
pub data Step (o : Outside) : World → World → Type 0 where
  commanded : (c : Command) → keeps_volume c ≡ true → {w : World} → Step o w (cli o c w).1
  edited : (files : FileTable) → {w : World} → Step o w (record w { files = files })

pub data Session (o : Outside) (start : World) : World → Type 0 where
  begun : Session o start start
  continued : {v w : World} → Session o start v → Step o v w → Session o start w
