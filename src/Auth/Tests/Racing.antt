-- ===== src/Auth/Tests/Racing.antt =====
-- The theorem on two presentations of a token at once, at a concrete input.
use flatrent.Auth.UseCases.Sessions.Races.{Presentation}

abbrev mine : Presentation
mine = record { given = "first"; next = "second"; salt = 0; now = 900 }

abbrev thief : Presentation
thief = record { given = "first"; next = "third"; salt = 1; now = 901 }
