-- ===== src/Ftp/Protocol/Tests.antt =====
-- The command words on concrete inputs.
use hyu_2021_network_protoco.Common.{◌≡◌, ◌↔◌, refl}
use hyu_2021_network_protoco.Clib.Text.{codes}
use hyu_2021_network_protoco.Ftp.Protocol.{Command, interpret}
use hyu_2021_network_protoco.Ftp.Protocol.Laws.{Spells, interpret_exact}

interpret_exact_example :
    (interpret (codes "PaSv") ≡ Command.pasv) ↔ Spells (codes "pasv") (codes "PaSv")
interpret_exact_example = interpret_exact (codes "PaSv") (codes "pasv") Command.pasv refl
