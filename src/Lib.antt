-- ===== src/Lib.antt =====
-- The chat client: the parts of the React frontend that keep messages, unread counts, connections
-- and uploads right whatever the order of events.
--
-- Common holds what the files share: tests on numbers, lists, integers, dictionaries and text. A
-- text is a list of UTF-16 code units; a dictionary is an association list. A callback of React's
-- or the browser's is one function from state to state, called in the order that the event type of
-- the component records. No loop runs on fuel: each is by recursion on a list of messages, events
-- or answers, and where a list of answers ends the model says that the code still waits.
--
-- - Message: frontend/src/entities/message/types.ts and frontend/src/entities/user/types.ts, the
--   data of all the rest.
-- - Number: JavaScript numbers, where the code tests for NaN, sign and fraction.
-- - ActorRef: normalizeActorRef, resolveCurrentActorRef, resolveMessageActorRef and isOwnMessage
--   of frontend/src/pages/chatRoomPage/utils.ts. `toLowerCase` is a parameter of everything that
--   uses it.
-- - ReadTracker: frontend/src/shared/chat/readTracker.ts. collectVisibleMessageIdsByBottomEdge,
--   computeNextLastReadMessageId and computeUnreadStats are functions of the same names; the hook
--   useReadTracker is the record Tracker with apply_viewport_read and unread_stats.
-- - UnreadOverrides: frontend/src/shared/unreadOverrides/store.ts. The module's variables are the
--   record Store.
-- - Optimistic: frontend/src/pages/chatRoomPage/optimisticMessages.ts, but for the drawing of
--   random ids.
-- - Sanitize: frontend/src/shared/lib/sanitize.ts.
-- - ChatRoom: frontend/src/hooks/useChatRoom.ts. The record Hook has its state and refs;
--   loadInitial and loadMore are cut at their awaits into the part that sends and the parts that
--   take an answer. System puts the hook beside the requests that are on the wire.
-- - Socket: frontend/src/hooks/useReconnectingWebSocket.ts. One function for each handler;
--   Socket/Events says when a handler is called: a socket that has been cleaned up has none, a
--   timer fires while it is set.
-- - WsEvent: the decoded events of frontend/src/dto/ws/chat.ts.
-- - Realtime: frontend/src/pages/chatRoomPage/useChatRoomPageRealtime.ts, which uses Optimistic,
--   Sanitize and ActorRef. Page is the state that it updates; calls outside are recorded as
--   effects. `setMessages` is a plain update here, and cleans and dedupes in ChatRoom.
-- - Upload: frontend/src/adapters/apiService/uploadAttachments.ts. What the server answers is a
--   list of answers, in the order in which they are awaited; a timer is present by whether it has
--   fired.
-- - Requests: frontend/src/controllers/ChatController.ts, where it shares requests in flight.
--   ChatRoom's requests pass through it.
-- - RoomRead: frontend/src/shared/roomReadState/RoomReadStateProvider.tsx. Provider has the state, the
--   refs and one function for each call of the context, applyServerUnreadSnapshot in Snapshot;
--   Publishing the counts that are told, and the effect that writes them to UnreadOverrides. A
--   dictionary keeps its keys in the order in which they came, where JavaScript puts numeric keys in
--   ascending order; the order shows only in the order of the listeners' calls.
-- - PageRead: frontend/src/pages/chatRoomPage/useChatRoomPageReadState.ts and the storage functions of
--   utils.ts beside it. Sync has the refs of the pending read, and updates the rooms of RoomRead;
--   an id that is null or undefined is 0, as every caller has it. `Number` of a text is a parameter.
--   In History the loop of ensureMessageLoaded counts down from MAX_HISTORY_JUMP_ATTEMPTS.
-- - Timeline: buildTimeline of utils.ts, and in Divider the memos of useChatRoomPageReadState.ts that
--   choose the divider's place.
-- - Hub: frontend/src/shared/chatRealtime/ChatRealtimeProvider.tsx and useChatRealtimeRoom.ts.
-- - Inbox: frontend/src/shared/directInbox/DirectInboxProvider.tsx. Inbox has the state and the refs,
--   applyUnreadState and markRead, which go on to RoomRead; Merging has mergeItem, and Live the events
--   of the socket. A callback has the items of the render that made it. `Date.parse` is a parameter.
-- - Conversations: frontend/src/shared/conversationList/ConversationListProvider.tsx, without the sorted
--   list of conversations. In Searching each run of the search's effect has a number.
-- - Emoji: frontend/src/shared/customEmojiParser.ts. encodeURIComponent, decodeURIComponent and the
--   generated catalogue are parameters.
-- - Examples: concrete rooms, sockets, pages and uploads.
--
-- Not modelled: the Django backend; the React components; the zod schemas, which are a library's
-- values; scrolling and other geometry of the DOM; the effect that refreshes the reader's own name in old messages; createClientMessageId,
-- which only draws a random name; byte counts that are negative or fractional, which the server
-- does not send; and the floating-point error of a progress percentage, which is kept as a
-- fraction.
mod Common
pub mod Message
pub mod Number
pub mod ActorRef
pub mod ReadTracker
pub mod UnreadOverrides
pub mod Optimistic
pub mod Sanitize
pub mod ChatRoom
pub mod Socket
pub mod WsEvent
pub mod Realtime
pub mod Upload
pub mod Requests
pub mod RoomRead
pub mod PageRead
pub mod Hub
pub mod Timeline
pub mod Inbox
pub mod Emoji
pub mod Conversations
pub mod Examples
