-- ===== src/Websocket/Sending.antt =====
-- IWebSocketPeer::send of src/utils/websocket.cpp.
