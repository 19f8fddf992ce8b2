-- ===== src/Connection/Receiving/Asked.antt =====
-- A message that asks for the reply 100, on a connection that was reset.
use da4qi.Base.{[], none, ◌≡◌}
use da4qi.Request.Members.{Request, no_request, no_content, clear}
use da4qi.Request.Members
use da4qi.Connection.Arrivals.{clean}
use da4qi.Connection.Receiving.{Receiving, read_none_complete}
use da4qi.Connection.Receiving.Message.{Message, Around}

module _ {S : Type 0} (C : Around S) (m : Message) where
  -- Nothing is left of the headers of a message, of its cookies and of its application.
  abbrev pub IsForgotten : Receiving S → Type 0
  IsForgotten t =
      (t.read_complete ≡ read_none_complete)
      × (t.reading ≡ clean [])
      × (t.request.cookies ≡ [])
      × (t.app ≡ none)
